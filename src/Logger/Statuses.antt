-- ===== src/Logger/Statuses.antt =====
-- The status that net/http sends, and the one that was set last, by the calls of a handler behind
-- `LogMiddleware` of util/logger.go.
use runner_controller_micros.Base.{
  ℕ, zero, suc, ◌+◌, String, Bool, true, false, ◌≡◌, refl, ap, ◌∙◌, sym, List, [], ◌∷◌, ◌++◌, map,
  ◌||◌, nat_eq, leb, arith, if◌then◌else◌, ◌⊎◌, inl, inr,
}
use mathlib.Core.Bool.{false≢true}
use runner_controller_micros.Logger.Middleware.{Call, write_header, write, flush}

-- A status that ends the header: 101 and those that are not informational.
unfoldable pub is_final : ℕ → Bool
is_final c = nat_eq c 101 || leb 200 c

-- The status that net/http sends to the client for the calls of a handler: the first final one,
-- and 200 if a part of the body comes before it or there is none.
unfoldable pub sent : List Call → ℕ
sent [] = 200
sent (write_header c ∷ cs) = let rest = sent cs in if is_final c then c else rest
sent (write b ∷ cs) = 200
sent (flush ∷ cs) = 200

-- Calls that set the status first, if at all, and once, and that send something.
abbrev pub SetsOnce : List Call → Type 0
SetsOnce cs =
    (bs : List String) × (((c : ℕ) × (is_final c ≡ true) × (cs ≡ write_header c ∷ map write bs))
      ⊎ ((b : String) × (cs ≡ write b ∷ map write bs)))

-- The status after a part of the body: 200 if it was 0.
abbrev pub after_writes : ℕ → List String → ℕ
after_writes c [] = c
after_writes c (b ∷ bs) = if nat_eq c 0 then 200 else c

-- The status that was set last, if one was, with what is written after it.
abbrev pub IsLastStatus : ℕ → List Call → Type 0
IsLastStatus status cs =
    (bs : List String) × (((cs ≡ map write bs) × (status ≡ after_writes 0 bs))
      ⊎ ((before : List Call) × (c : ℕ) × (cs ≡ before ++ (write_header c ∷ map write bs))
          × (status ≡ after_writes c bs)))

pub zero_add : (n : ℕ) → 0 + n ≡ n
zero_add n = omega arith

suc_not_zero : (n : ℕ) → nat_eq (suc n) 0 ≡ false
suc_not_zero n = ground arith

final-suc : (c : ℕ) → is_final c ≡ true → (n : ℕ) × (c ≡ suc n)
unfolding is_final
final-suc zero h = absurd (false≢true h)
final-suc (suc n) h = (n, refl)

tails : {x y : Call} {xs ys : List Call} → x ∷ xs ≡ y ∷ ys → xs ≡ ys
tails e = cc

statuses : {c d : ℕ} {xs ys : List Call} → write_header c ∷ xs ≡ write_header d ∷ ys → c ≡ d
statuses e = cc

header_ne_writes :
    (c : ℕ) (xs : List Call) (ds : List String) → write_header c ∷ xs ≡ map write ds → ⊥
header_ne_writes c xs [] e = cc
header_ne_writes c xs (d ∷ ds) e = cc

some_writes :
    (b : String) (bs ds : List String)
    → write b ∷ map write bs ≡ map write ds
    → after_writes 0 ds ≡ 200
some_writes b bs [] e = cc
some_writes b bs (d ∷ ds) e = refl

pub once_more :
    (c : ℕ) (bs : List String) (b : String)
    → (if nat_eq (after_writes c bs) 0 then 200 else after_writes c bs)
      ≡ after_writes c (bs ++ (b ∷ []))
once_more zero [] b = refl
once_more (suc n) [] b = refl
once_more zero (x ∷ bs) b = refl
once_more (suc n) (x ∷ bs) b = rw (suc_not_zero n) (rw (suc_not_zero n) refl)

after_writes-suc : (n : ℕ) (bs : List String) → after_writes (suc n) bs ≡ suc n
after_writes-suc n [] = refl
after_writes-suc n (b ∷ bs) = rw (suc_not_zero n) refl

-- Among parts of a body there is no status.
no_status :
    (bs : List String) (before : List Call) (c : ℕ) (rest : List Call)
    → map write bs ≡ before ++ (write_header c ∷ rest)
    → ⊥
no_status [] [] c rest e = cc
no_status [] (x ∷ before) c rest e = cc
no_status (b ∷ bs) [] c rest e = cc
no_status (b ∷ bs) (x ∷ before) c rest e = no_status bs before c rest (tails e)

-- The status that was set last is the one that was set, if there is one at the front only.
one_status :
    (c : ℕ) (bs : List String) (before : List Call) (d : ℕ) (ds : List String)
    → write_header c ∷ map write bs ≡ before ++ (write_header d ∷ map write ds)
    → c ≡ d
one_status c bs [] d ds e = statuses e
one_status c bs (x ∷ before) d ds e = absurd (no_status bs before d (map write ds) (tails e))

pub IsLastStatus-sent :
    (cs : List Call) → SetsOnce cs → (status : ℕ) → IsLastStatus status cs → status ≡ sent cs
unfolding sent
IsLastStatus-sent cs (bs, inl (c, final, e)) status (ds, inl (split, k)) =
    absurd (header_ne_writes c (map write bs) ds (sym e ∙ split))
IsLastStatus-sent cs (bs, inl (c, final, e)) status (ds, inr (before, d, split, k)) =
    let (n, positive) = final-suc c final in
    let same = one_status c bs before d ds (sym e ∙ split) in
    k
    ∙ ap (λ x. after_writes x ds) (sym same ∙ positive)
    ∙ after_writes-suc n ds
    ∙ sym positive
    ∙ rw e (rw (final, sent) refl)
IsLastStatus-sent cs (bs, inr (b, e)) status (ds, inl (split, k)) =
    k ∙ some_writes b bs ds (sym e ∙ split) ∙ rw e refl
IsLastStatus-sent cs (bs, inr (b, e)) status (ds, inr (before, d, split, k)) =
    absurd (no_status (b ∷ bs) before d (map write ds) (sym e ∙ split))
