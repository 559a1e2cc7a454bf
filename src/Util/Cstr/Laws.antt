-- ===== src/Util/Cstr/Laws.antt =====
-- C strings as lists without zero bytes: length, order, and the environment.
use hc.Base.{
  ℕ, suc, ◌+◌, ◌<◌, ◌≡◌, ◌≢◌, refl, ap, ap₂, ◌-◌, arith, List, [], ◌∷◌, ◌++◌, length, none, some, ℤ,
  pos, negsuc, sub_ℕ, ◌∙◌, dec_lt, ℕ_discrete,
}
use hc.Util.Cstr.{cstr_len_from, cstr_len, cstr_cmp, match_env, get_env}

-- The bytes before the terminator.
abbrev pub NoZero : List ℕ → Type 0
NoZero [] = Unit {0}
NoZero (c ∷ cs) = (c ≢ 0) × NoZero cs

cstr_len_from_lem :
    (count : ℕ) (text rest : List ℕ)
    → NoZero text
    → cstr_len_from count (text ++ 0 ∷ rest) ≡ some (count + length text)
unfolding cstr_len_from
cstr_len_from_lem count [] rest h = ap some (omega arith)
cstr_len_from_lem count (c ∷ cs) rest h = ground (arith, cstr_len_from_lem (suc count) cs rest)

-- The length of a string is the number of the bytes before its first zero byte.
pub cstr_len_lem :
    (text rest : List ℕ) → NoZero text → cstr_len (text ++ 0 ∷ rest) ≡ some (length text)
unfolding cstr_len
cstr_len_lem text rest h = cstr_len_from_lem 0 text rest h ∙ ap some (omega arith)

-- The order of dictionaries on strings of bytes: which of the two comes first, or neither.
pub data Before : List ℕ → List ℕ → Type 0 where
  shorter : {c : ℕ} {cs : List ℕ} → Before [] (c ∷ cs)
  smaller : {c d : ℕ} {cs ds : List ℕ} → c < d → Before (c ∷ cs) (d ∷ ds)
  same : {c : ℕ} {cs ds : List ℕ} → Before cs ds → Before (c ∷ cs) (c ∷ ds)

-- The sign of a difference of characters.
abbrev pub IsNegative : ℤ → Type 0
IsNegative (pos n) = ⊥
IsNegative (negsuc n) = Unit {0}

abbrev pub IsPositive : ℤ → Type 0
IsPositive (pos n) = 0 < n
IsPositive (negsuc n) = ⊥

-- How the result of a comparison reads.
pub record Compared (a b : List ℕ) (diff : ℤ) : Type 0 where
  pub negative : IsNegative diff → Before a b
  pub positive : IsPositive diff → Before b a
  pub equal : diff ≡ pos 0 → a ≡ b

cstr_cmp_head :
    (l r : ℕ) (left right : List ℕ) → l ≢ r → cstr_cmp (l ∷ left) (r ∷ right) ≡ some (sub_ℕ l r)
unfolding cstr_cmp
cstr_cmp_head l r left right h = ground arith

cstr_cmp_same :
    (c : ℕ) (left right : List ℕ) → c ≢ 0 → cstr_cmp (c ∷ left) (c ∷ right) ≡ cstr_cmp left right
unfolding cstr_cmp
cstr_cmp_same c left right h = ground arith

cstr_cmp_end : (left right : List ℕ) → cstr_cmp (0 ∷ left) (0 ∷ right) ≡ some (pos 0)
unfolding cstr_cmp
cstr_cmp_end left right = refl

sub_ℕ-lt : (l r : ℕ) → l < r → sub_ℕ l r ≡ negsuc (r - l - 1)
sub_ℕ-lt l r h = ground arith

sub_ℕ-gt : (l r : ℕ) → r < l → sub_ℕ l r ≡ pos (l - r)
sub_ℕ-gt l r h = ground arith

abbrev Result : List ℕ → List ℕ → List ℕ → List ℕ → Type 0
Result a b ra rb =
    (diff : ℤ) × (cstr_cmp (a ++ 0 ∷ ra) (b ++ 0 ∷ rb) ≡ some diff) × Compared a b diff

-- The comparison of two strings sees no byte behind a terminator. Its result is negative only if
-- the first string comes first in the order of dictionaries, positive only if the second does, and
-- zero only if they are equal.
pub cstr_cmp_lem :
    (a b ra rb : List ℕ)
    → NoZero a
    → NoZero b
    → (diff : ℤ) × (cstr_cmp (a ++ 0 ∷ ra) (b ++ 0 ∷ rb) ≡ some diff) × Compared a b diff
cstr_cmp_lem [] [] ra rb ha hb = (
  pos 0,
  cstr_cmp_end ra rb,
  record { negative = λ h. absurd h; positive = λ h. absurd (omega arith); equal = λ h. refl },
)
cstr_cmp_lem [] (d ∷ ds) ra rb ha hb = (
  negsuc (d - 0 - 1),
  cstr_cmp_head 0 d ra (ds ++ 0 ∷ rb) (omega arith) ∙ ap some (sub_ℕ-lt 0 d (omega arith)),
  record { negative = λ h. Before.shorter; positive = λ h. absurd h; equal = λ h. cc },
)
cstr_cmp_lem (c ∷ cs) [] ra rb ha hb = (
  pos (c - 0),
  cstr_cmp_head c 0 (cs ++ 0 ∷ ra) rb (omega arith) ∙ ap some (sub_ℕ-gt c 0 (omega arith)),
  record {
    negative = λ h. absurd h;
    positive = λ h. Before.shorter;
    equal = λ h. absurd (ground arith);
  },
)
cstr_cmp_lem (c ∷ cs) (d ∷ ds) ra rb ha hb = elim (ℕ_discrete c d) [
  | yes e ↦ rw (← e) (after_same (cstr_cmp_lem cs ds ra rb ha.1 hb.1))
  | no ne ↦ after_head ne
]
  where
    after_same : Result cs ds ra rb → Result (c ∷ cs) (c ∷ ds) ra rb
    after_same (diff, e, r) = (
      diff,
      cstr_cmp_same c (cs ++ 0 ∷ ra) (ds ++ 0 ∷ rb) ha.0 ∙ e,
      record {
        negative = λ h. Before.same (r.negative h);
        positive = λ h. Before.same (r.positive h);
        equal = λ h. ap (◌∷◌ c) (r.equal h);
      },
    )

    after_head : c ≢ d → Result (c ∷ cs) (d ∷ ds) ra rb
    after_head ne = elim (dec_lt c d) [
      | yes lt ↦ (
        negsuc (d - c - 1),
        cstr_cmp_head c d _ _ ne ∙ ap some (sub_ℕ-lt c d lt),
        record { negative = λ h. Before.smaller lt; positive = λ h. absurd h; equal = λ h. cc },
      )
      | no ge ↦ (
        pos (c - d),
        cstr_cmp_head c d _ _ ne ∙ ap some (sub_ℕ-gt c d (omega arith)),
        record {
          negative = λ h. absurd h;
          positive = λ h. Before.smaller (omega arith);
          equal = λ h. absurd (ground arith);
        },
      )
    ]

-- An entry `name=value` of the environment, and the other entries.
match_env_hit :
    (name value rest : List ℕ)
    → NoZero name
    → match_env (name ++ b'=' ∷ value) (name ++ 0 ∷ rest) ≡ some (some value)
unfolding match_env
match_env_hit [] value rest h = refl
match_env_hit (c ∷ cs) value rest h = ground (arith, match_env_hit cs value rest h.1)

-- The entry is terminated, and its bytes before the terminator do not begin with `name=`.
match_env_miss :
    (text name after rest : List ℕ)
    → NoZero text
    → NoZero name
    → ((value : List ℕ) → text ≢ name ++ b'=' ∷ value)
    → match_env (text ++ 0 ∷ after) (name ++ 0 ∷ rest) ≡ some none
unfolding match_env
match_env_miss [] [] after rest ht hn ne = refl
match_env_miss [] (c ∷ cs) after rest ht hn ne = ground arith
match_env_miss (t ∷ ts) [] after rest ht hn ne = elim (ℕ_discrete t b'=') [
  | yes e ↦ absurd (ne ts (ap (λ x. x ∷ ts) e))
  | no d ↦ ground arith
]
match_env_miss (t ∷ ts) (c ∷ cs) after rest ht hn ne = elim (ℕ_discrete t c) [
  | yes e ↦ ground (arith, match_env_miss ts cs after rest ht.1 hn.1 (λ v q. ne v (ap₂ ◌∷◌ e q)))
  | no d ↦ ground arith
]

-- The strings of an environment, each with its terminator, none of which sets `name`.
abbrev pub NotSet : List ℕ → List (List ℕ) → Type 0
NotSet name [] = Unit {0}
NotSet name (text ∷ texts) =
    (NoZero text × ((value : List ℕ) → text ≢ name ++ b'=' ∷ value)) × NotSet name texts

abbrev pub terminated : List (List ℕ) → List (List ℕ)
terminated [] = []
terminated (text ∷ texts) = (text ++ 0 ∷ []) ∷ terminated texts

-- `util_getEnv` returns what stands behind `name=` in the first entry that sets the name.
pub get_env_found :
    (before : List (List ℕ)) (name value rest : List ℕ) (behind : List (List ℕ))
    → NoZero name
    → NotSet name before
    → get_env (terminated before ++ (name ++ b'=' ∷ value) ∷ behind) (name ++ 0 ∷ rest)
      ≡ some (some value)
unfolding get_env
get_env_found [] name value rest behind hn ns = rw (match_env_hit name value rest hn, get_env)
get_env_found (t ∷ ts) name value rest behind hn ns =
    rw (match_env_miss t name [] rest ns.0.0 hn ns.0.1, get_env)
      (get_env_found ts name value rest behind hn ns.1)

-- With no entry that sets the name it returns the null pointer.
pub get_env_missing :
    (texts : List (List ℕ)) (name rest : List ℕ)
    → NoZero name
    → NotSet name texts
    → get_env (terminated texts) (name ++ 0 ∷ rest) ≡ some none
unfolding get_env
get_env_missing [] name rest hn ns = refl
get_env_missing (t ∷ ts) name rest hn ns =
    rw (match_env_miss t name [] rest ns.0.0 hn ns.0.1, get_env)
      (get_env_missing ts name rest hn ns.1)
