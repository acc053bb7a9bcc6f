-- ===== src/Logger/Address.antt =====
-- The address that the entries of util/logger.go name.
use Prim.Native.Char.{Char, code}
use runner_controller_micros.Base.{
  ◌<>◌, String, false, ◌≡◌, ◌≢◌, refl, sym, ap, ◌∙◌, inl, inr, nat_eq, Bool-cases, ◌⊎◌,
}
use mathlib.Core.Bool.{false≢true}
use runner_controller_micros.Base.Text.Laws.{ne-eq}
use text.Mathlib.TextLemmas.{cons-append}
use runner_controller_micros.Base.Text.{has_char}
use runner_controller_micros.Logger.Client.{
  Request, trim_space, bracketed_host, if_port, plain_host, split_host, first_address, or_else,
  client_ip,
}
use runner_controller_micros.Logger.Texts.{
  has_char-before_first, has_char-cons, has_char-trim_left, has_char-trim_right, has_char-append,
  before_first-append, after_first-append, has_char-separator, char-append,
}

or_else_full : (s t : String) → s ≢ "" → or_else s t ≡ s
unfolding or_else
or_else_full s t h = rw (ne-eq h) refl

first_address-listed :
    (a rest : String) → has_char a "," ≡ false → first_address (a <> ("," <> rest)) ≡ trim_space a
unfolding first_address
first_address-listed a rest h =
    rw (char-append "," rest, has_char-separator "," a rest, before_first-append "," a rest h) refl

first_address_alone : (ip : String) → has_char ip "," ≡ false → first_address ip ≡ ip
unfolding first_address
first_address_alone ip h = rw h refl

split_host-plain : (s : String) → has_char s "[" ≡ false → split_host s ≡ plain_host s
unfolding split_host plain_host has_char
split_host-plain String.[] h = refl
split_host-plain (String.◌∷◌ c s) h = rw ((has_char-cons "[" c s h).0) refl

-- `c` is neither in the host nor in the port.
abbrev Absent : String → String → Char → Type 0
Absent host port c = (has_char host c ≡ false) × (has_char port c ≡ false)

has_char-front :
    (c d : Char) (s : String)
    → nat_eq (code d) (code c) ≡ false
    → has_char s c ≡ false
    → has_char (String.◌∷◌ d s) c ≡ false
unfolding has_char
has_char-front c d s e h = simp (e, h)

has_char-around :
    (c d : Char) (host port : String)
    → nat_eq (code d) (code c) ≡ false
    → Absent host port c
    → has_char (host <> String.◌∷◌ d port) c ≡ false
has_char-around c d host port e a =
    rw (has_char-append host (String.◌∷◌ d port) c, a.0) (has_char-front c d port e a.1)

split_host-port :
    (host port : String)
    → Absent host port ":"
    → Absent host port "["
    → Absent host port "]"
    → split_host (host <> (":" <> port)) ≡ host
unfolding plain_host
split_host-port host port colon left right =
    let opened = has_char-around "[" ":" host port refl left in
    let ended = has_char-around "]" ":" host port refl right in
    rw
      (
        char-append ":" port,
        split_host-plain _ opened,
        has_char-separator ":" host port,
        after_first-append ":" host port colon.0,
        colon.1,
        opened,
        ended,
      )
      (before_first-append ":" host port colon.0)

split_host-brackets :
    (host port : String)
    → has_char port ":" ≡ false
    → Absent host port "["
    → Absent host port "]"
    → split_host ("[" <> (host <> ("]:" <> port))) ≡ host
unfolding split_host bracketed_host if_port
split_host-brackets host port colon left right =
    let after = String.◌∷◌ ":" port in
    let opened =
      has_char-around "[" "]" host after refl (left.0, has_char-front "[" ":" port refl left.1) in
    rw
      (
        cons-append "]" ":" port,
        char-append ":" port,
        char-append "[",
        has_char-separator "]" host after,
        opened,
        after_first-append "]" host after right.0,
        colon,
        right.1,
      )
      (before_first-append "]" host after right.0)

listed_not_empty : (a rest : String) → a <> ("," <> rest) ≢ ""
unfolding has_char
listed_not_empty a rest empty = false≢true (
    ap (λ s. has_char s ",") (sym empty)
    ∙ ap (λ s. has_char (a <> s) ",") (char-append "," rest)
    ∙ has_char-separator "," a rest)

-- The address that an entry names has no comma.
client_ip-no_comma : {Query : Type 0} (req : Request Query) → has_char (client_ip req) "," ≡ false
unfolding client_ip first_address trim_space
client_ip-no_comma req =
    let ip =
      or_else (or_else (req.get "X-Forwarded-For") (req.get "X-Real-IP"))
        (split_host req.remote_addr) in
    elim (Bool-cases (has_char ip ",")) [
      | inl e ↦
          rw e (has_char-trim_right "," _ (has_char-trim_left "," _ (has_char-before_first "," ip)))
      | inr e ↦ rw e e
    ]

-- Of the addresses that proxies have listed in X-Forwarded-For, the entry names the first one,
-- trimmed of spaces.
pub client_ip-forwarded :
    {Query : Type 0} (req : Request Query) (a rest : String)
    → req.get "X-Forwarded-For" ≡ a <> ("," <> rest)
    → has_char a "," ≡ false
    → client_ip req ≡ trim_space a
unfolding client_ip
client_ip-forwarded req a rest e h =
    let full = listed_not_empty a rest in
    rw
      (
        e,
        or_else_full (a <> ("," <> rest)) (req.get "X-Real-IP") full,
        or_else_full (a <> ("," <> rest)) (split_host req.remote_addr) full,
      )
      (first_address-listed a rest h)

-- Without the headers of proxies, the entry names the host of the remote address, which is written
-- `host:port`, or, for a host with colons, `[host]:port`, where the host has neither brackets nor
-- commas and the port has no brackets and no colon.
client_ip-remote :
    {Query : Type 0} (req : Request Query) (host port : String)
    → req.get "X-Forwarded-For" ≡ ""
    → req.get "X-Real-IP" ≡ ""
    → has_char host "," ≡ false
    → Absent host port "["
    → Absent host port "]"
    → has_char port ":" ≡ false
    → (req.remote_addr ≡ "[" <> (host <> ("]:" <> port)))
      ⊎ ((req.remote_addr ≡ host <> (":" <> port)) × (has_char host ":" ≡ false))
    → client_ip req ≡ host
unfolding client_ip or_else
client_ip-remote req host port e f comma left right colon h = elim h [
  | inl a ↦
      rw (e, f, a, split_host-brackets host port colon left right) (first_address_alone host comma)
  | inr a ↦
      rw (e, f, a.0, split_host-port host port (a.1, colon) left right)
        (first_address_alone host comma)
]
