-- ===== src/Logger/Client.antt =====
-- The address of the client, as `enrich` and `LogMiddleware` of util/logger.go both find it, with the
-- functions of Go's `strings` and `net` that they call.
use Prim.Native.Char.{Char, code}
use runner_controller_micros.Base.{String, Bool, ◌&&◌, ◌||◌, not, ◌==◌, if◌then◌else◌, nat_eq, leb}
use runner_controller_micros.Base.Text.{has_char}

-- The part of an `http.Request` that the logger reads; `Query` is the type of parsed parameters.
-- `get` is `Header.Get`, the first value of a header, or the empty text.
pub record Request (Query : Type 0) : Type 0 where
  pub path : String
  pub method : String
  pub query : Query
  pub get : String → String
  pub remote_addr : String

-- `unicode.IsSpace`
unfoldable pub is_space : Char → Bool
is_space c =
    let n = code c in
    (leb 9 n && leb n 13)
    || nat_eq n 32
    || nat_eq n 133
    || nat_eq n 160
    || nat_eq n 5760
    || (leb 8192 n && leb n 8202)
    || nat_eq n 8232
    || nat_eq n 8233
    || nat_eq n 8239
    || nat_eq n 8287
    || nat_eq n 12288

unfoldable pub trim_left : String → String
trim_left String.[] = ""
trim_left (String.◌∷◌ c s) = let rest = trim_left s in if is_space c then rest else String.◌∷◌ c s

-- `c` before a text of which the end is trimmed already: a space in front of nothing goes.
unfoldable pub keep : Char → String → String
keep c String.[] = if is_space c then "" else String.◌∷◌ c ""
keep c (String.◌∷◌ d s) = String.◌∷◌ c (String.◌∷◌ d s)

unfoldable pub trim_right : String → String
trim_right String.[] = ""
trim_right (String.◌∷◌ c s) = keep c (trim_right s)

-- `strings.TrimSpace(s)`
unfoldable pub trim_space : String → String
trim_space s = trim_right (trim_left s)

-- `strings.Split(s, c)[0]`, for one character
unfoldable pub before_first : Char → String → String
before_first c String.[] = ""
before_first c (String.◌∷◌ d s) =
    let rest = before_first c s in if nat_eq (code d) (code c) then "" else String.◌∷◌ d rest

-- What follows the first `c`.
unfoldable pub after_first : Char → String → String
after_first c String.[] = ""
after_first c (String.◌∷◌ d s) =
    let rest = after_first c s in if nat_eq (code d) (code c) then s else rest

-- `host` if what follows the bracket that closes is a colon and a port.
unfoldable pub if_port : String → String → String
if_port String.[] host = ""
if_port (String.◌∷◌ c port) host =
    if nat_eq (code c) (code ":") && not (has_char port ":") && not (has_char port "]")
    then host
    else ""

-- The host of `net.SplitHostPort` for an address in brackets, of which `s` follows the first one.
unfoldable pub bracketed_host : String → String
bracketed_host s =
    if has_char s "]" && not (has_char s "[")
    then if_port (after_first "]" s) (before_first "]" s)
    else ""

unfoldable pub plain_host : String → String
plain_host s =
    if has_char s ":"
      && not (has_char (after_first ":" s) ":")
      && not (has_char s "[")
      && not (has_char s "]")
    then before_first ":" s
    else ""

-- The host of `net.SplitHostPort(s)`, which is empty when there is an error.
unfoldable pub split_host : String → String
split_host String.[] = ""
split_host (String.◌∷◌ c s) =
    if nat_eq (code c) (code "[") then bracketed_host s else plain_host (String.◌∷◌ c s)

-- The first element of a list with commas.
unfoldable pub first_address : String → String
first_address ip = if has_char ip "," then trim_space (before_first "," ip) else ip

unfoldable pub or_else : String → String → String
or_else s t = if s == "" then t else s

unfoldable pub client_ip : {Query : Type 0} → Request Query → String
client_ip req = first_address (
    or_else (or_else (req.get "X-Forwarded-For") (req.get "X-Real-IP"))
      (split_host req.remote_addr))
