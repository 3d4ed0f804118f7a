-- ===== src/Http/Std.antt =====
-- What util/http.go uses of Go's net/http: `ParseHTTPVersion`, `StatusText` and the method names.
use httpdump.Base.{
  ℕ, ◌-◌, Bool, false, not, ◌&&◌, ◌||◌, Option, none, some, leb, ◌==◌, if◌then◌else◌, length,
  get_or, Bytes, codes, bytes_eq, has_prefix,
}

-- One decimal digit, as `strconv.ParseUint` reads a string of length 1.
abbrev pub is_digit : ℕ → Bool
is_digit c = leb 48 c && leb c 57

-- `http.ParseHTTPVersion`: the major and the minor version, or none where it gives false.
unfoldable pub parse_http_version : Bytes → Option (ℕ × ℕ)
parse_http_version vers =
    if bytes_eq vers (codes "HTTP/1.1")
    then some (1, 1)
    else if bytes_eq vers (codes "HTTP/1.0")
    then some (1, 0)
    else if not (has_prefix vers (codes "HTTP/"))
    then none
    else if not (length vers == 8)
    then none
    else if not (get_or vers 6 0 == b'.')
    then none
    else if is_digit (get_or vers 5 0) && is_digit (get_or vers 7 0)
    then some (get_or vers 5 0 - 48, get_or vers 7 0 - 48)
    else none

-- `ok && major == 1 && (minor == 0 || minor == 1)`
unfoldable pub is_http1 : Option (ℕ × ℕ) → Bool
is_http1 none = false
is_http1 (some (major, minor)) = major == 1 && (minor == 0 || minor == 1)

-- `http.StatusText(code) != ""`: 1xx to 5xx as the standard library lists them.
unfoldable pub has_status_text : ℕ → Bool
has_status_text code =
    (leb 100 code && leb code 103)
    || (leb 200 code && leb code 208)
    || code == 226
    || (leb 300 code && leb code 305)
    || code == 307
    || code == 308
    || (leb 400 code && leb code 418)
    || (leb 421 code && leb code 426)
    || code == 428
    || code == 429
    || code == 431
    || code == 451
    || (leb 500 code && leb code 508)
    || code == 510
    || code == 511
