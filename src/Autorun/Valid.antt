-- ===== src/Autorun/Valid.antt =====
-- webapp/autorun.py: what `apply_update` guarantees of the settings that it accepts.
use rca_claude_agent.Prelude.{
  strip, lower, none, refl, [], some, ◌++◌, ◌∷◌, dedupe_from, arith, dedupe, true, ◌≡◌, length, all,
  Bool, Option, ◌≤◌, List, String, ℕ,
}
use rca_claude_agent.Autorun.Settings.{
  invalid, ◌>>=◌, check_flag, Checked, stripped, ok, known, is_token, Value, Update, apply_update,
  clean_tokens, clean_from, check_types, bounded, Settings,
}

-- Settings within LIMITS, with known work types, at least one, and with well-formed tokens.
pub record IsValid (s : Settings) : Type 0 where
  pub interval_low : 30 ≤ s.interval_seconds
  pub interval_high : s.interval_seconds ≤ 3600
  pub parallel_low : 1 ≤ s.max_parallel
  pub parallel_high : s.max_parallel ≤ 4
  pub cap_high : s.daily_cap ≤ 200
  pub lookback_low : 1 ≤ s.lookback_hours
  pub lookback_high : s.lookback_hours ≤ 168
  pub some_type : 1 ≤ length s.allowed_types
  pub known_types : all known s.allowed_types ≡ true
  pub label_tokens : all is_token s.exclude_labels ≡ true
  pub keyword_tokens : all is_token s.exclude_env_keywords ≡ true

bounded_range :
    (field : String) (lo hi old : ℕ) (v : Option Value) (n : ℕ)
    → lo ≤ old
    → old ≤ hi
    → bounded field lo hi old v ≡ ok n
    → (lo ≤ n) × (n ≤ hi)
unfolding bounded
bounded_range field lo hi old none n h1 h2 e = ground arith
bounded_range field lo hi old (some v) n h1 h2 e = ground arith

all-dedupe_from :
    (p : String → Bool) (seen xs : List String)
    → all p xs ≡ true
    → all p (dedupe_from seen xs) ≡ true
all-dedupe_from p seen [] h = refl
all-dedupe_from p seen (x ∷ xs) h =
    ground (arith, all-dedupe_from p seen xs, all-dedupe_from p (x ∷ seen) xs)

length-dedupe : (xs : List String) → 1 ≤ length xs → 1 ≤ length (dedupe xs)
length-dedupe [] h = h
length-dedupe (x ∷ xs) h = omega arith

check_types_valid :
    (old : List String) (v : Option (List String)) (types : List String)
    → 1 ≤ length old
    → all known old ≡ true
    → check_types old v ≡ ok types
    → (1 ≤ length types) × (all known types ≡ true)
unfolding check_types
check_types_valid old none types h1 h2 e = ground arith
check_types_valid old (some names) types h1 h2 e =
    ground (arith, all-dedupe_from known [] (stripped names), length-dedupe (stripped names))

all-append_one :
    (p : String → Bool) (xs : List String) (x : String)
    → all p xs ≡ true
    → p x ≡ true
    → all p (xs ++ x ∷ []) ≡ true
all-append_one p [] x h1 h2 = ground arith
all-append_one p (y ∷ xs) x h1 h2 = ground (arith, all-append_one p xs x)

clean_from_tokens :
    (field : String) (out values tokens : List String)
    → all is_token out ≡ true
    → clean_from field out values ≡ ok tokens
    → all is_token tokens ≡ true
unfolding clean_from
clean_from_tokens field out [] tokens h e = ground arith
clean_from_tokens field out (v ∷ values) tokens h e =
    let t = lower (strip v) in
    ground (
      arith,
      clean_from_tokens field out values tokens h,
      all-append_one is_token out t h,
      clean_from_tokens field (out ++ t ∷ []) values tokens,
    )

clean_tokens_valid :
    (field : String) (old : List String) (v : Option (List String)) (tokens : List String)
    → all is_token old ≡ true
    → clean_tokens field old v ≡ ok tokens
    → all is_token tokens ≡ true
unfolding clean_tokens
clean_tokens_valid field old none tokens h e = ground arith
clean_tokens_valid field old (some values) tokens h e =
    clean_from_tokens field [] values tokens refl e

bind-ok {ℓ κ} :
    {A : Type ℓ} {B : Type κ} (m : Checked A) (f : A → Checked B) (b : B)
    → (m >>= f) ≡ ok b
    → (a : A) × (m ≡ ok a) × (f a ≡ ok b)
bind-ok (ok a) f b h = (a, refl, h)
bind-ok (invalid e) f b h = cc

-- Whatever an accepted update holds, valid settings stay valid: the numbers within LIMITS, the work
-- types known and not all gone, the tokens of the right shape.
pub apply_update-IsValid :
    (current s : Settings) (u : Update) (now : ℕ)
    → IsValid current
    → apply_update current u now ≡ ok s
    → IsValid s
unfolding apply_update
apply_update-IsValid current s u now v e =
    let (n1, p1, e1) =
      bind-ok (bounded "interval_seconds" 30 3600 current.interval_seconds u.interval_seconds) _ s
        e in
    let (n2, p2, e2) =
      bind-ok (bounded "max_parallel" 1 4 current.max_parallel u.max_parallel) _ s e1 in
    let (n3, p3, e3) = bind-ok (bounded "daily_cap" 0 200 current.daily_cap u.daily_cap) _ s e2 in
    let (n4, p4, e4) =
      bind-ok (bounded "lookback_hours" 1 168 current.lookback_hours u.lookback_hours) _ s e3 in
    let (ts, p5, e5) = bind-ok (check_types current.allowed_types u.allowed_types) _ s e4 in
    let (ls, p6, e6) =
      bind-ok (clean_tokens "exclude_labels" current.exclude_labels u.exclude_labels) _ s e5 in
    let (ks, p7, e7) =
      bind-ok
        (clean_tokens "exclude_env_keywords" current.exclude_env_keywords u.exclude_env_keywords) _
        s e6 in
    let (b, p8, e8) = bind-ok (check_flag current.auto_post u.auto_post) _ s e7 in
    ground (
      arith,
      bounded_range _ 30 3600 _ _ n1 v.interval_low v.interval_high p1,
      bounded_range _ 1 4 _ _ n2 v.parallel_low v.parallel_high p2,
      bounded_range _ 0 200 current.daily_cap _ n3 (omega arith) v.cap_high p3,
      bounded_range _ 1 168 _ _ n4 v.lookback_low v.lookback_high p4,
      check_types_valid _ _ ts v.some_type v.known_types p5,
      clean_tokens_valid _ _ _ ls v.label_tokens p6,
      clean_tokens_valid _ _ _ ks v.keyword_tokens p7,
    )
