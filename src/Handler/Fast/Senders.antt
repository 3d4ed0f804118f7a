-- ===== src/Handler/Fast/Senders.antt =====
-- Every sender gets every message.
use httpdump.Base.{
  ◌≡◌, refl, sym, ap, ap₂, ◌∙◌, List, [], ◌∷◌, ◌++◌, append-nil, append_assoc, map, Go, ok, ◌>>=◌,
  Returns,
}
use httpdump.Handler.Pairs.{Sent}
use httpdump.Handler.Fast.{SenderOps, senders_send}

-- The calls of `Send`, one behind the other.
abbrev pub send_all : {S : Type 0} → SenderOps S → List S → List Sent → Go (List S)
send_all ops ss [] = ok ss
send_all ops ss (m ∷ ms) = senders_send ops ss m.msg m.count_discards >>= λ ss'. send_all ops ss' ms

-- A sender that never panics and keeps what it is sent.
pub record Keeps {S : Type 0} (ops : SenderOps S) (log : S → List Sent) : Type 0 where
  pub sends :
      (s : S) (m : Sent)
      → Returns (ops.send s m.msg m.count_discards) (λ s'. log s' ≡ log s ++ m ∷ [])

module _ {S : Type 0} (ops : SenderOps S) (log : S → List Sent) (keeps : Keeps ops log) where
  abbrev add : List Sent → List Sent → List Sent
  add ms l = l ++ ms

  senders_send-all :
      (ss : List S) (m : Sent)
      → Returns
          (senders_send ops ss m.msg m.count_discards)
          (λ ss'. map log ss' ≡ map (add (m ∷ [])) (map log ss))
  unfolding senders_send
  senders_send-all [] m = ([], refl, refl)
  senders_send-all (s ∷ ss) m =
      let (s', e, one) = keeps.sends s m in
      let (ss', es, rest) = senders_send-all ss m in
      (s' ∷ ss', rw (e, ◌>>=◌, es) refl, ap₂ (λ x xs. x ∷ xs) one rest)

  map-add :
      (ms ns : List Sent) (ls : List (List Sent))
      → map (add ns) (map (add ms) ls) ≡ map (add (ms ++ ns)) ls
  map-add ms ns [] = refl
  map-add ms ns (l ∷ ls) = ap₂ (λ x xs. x ∷ xs) (append_assoc l ms ns) (map-add ms ns ls)

  map-nil : (ls : List (List Sent)) → map (add []) ls ≡ ls
  map-nil [] = refl
  map-nil (l ∷ ls) = ap₂ (λ x xs. x ∷ xs) (append-nil l) (map-nil ls)

  -- `Senders` hands every message on to every sender, in the order in which they come, where none
  -- of them panics: behind what it had, each has all the messages.
  pub send_all-map :
      (ss : List S) (ms : List Sent)
      → Returns (send_all ops ss ms) (λ ss'. map log ss' ≡ map (add ms) (map log ss))
  send_all-map ss [] = (ss, refl, sym (map-nil (map log ss)))
  send_all-map ss (m ∷ ms) =
      let (ss', e, one) = senders_send-all ss m in
      let (ss'', es, rest) = send_all-map ss' ms in
      (ss'', rw (e, ◌>>=◌) es, rest ∙ ap (map (add ms)) one ∙ map-add (m ∷ []) ms (map log ss))
