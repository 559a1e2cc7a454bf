-- ===== src/Tar/Prefix/Laws.antt =====
-- Leaving a directory undoes entering it, and the prefix stays inside its array.
use mathlib.Core.List.{reverse_aux}
use hc.Base.{
  ℕ, zero, suc, ◌+◌, ◌≤◌, ◌<◌, ◌≡◌, ◌≢◌, ◌==◌, ltb, refl, ap, sym, subst, ◌∙◌, arith, true, false,
  Bool-cases, inl, inr, List, [], ◌∷◌, ◌++◌, some, length, reverse, append-nil, length-append,
}
use hc.Tar.Prefix.{
  max_name_len, max_prefix_len, prefix_size, enter_directory, leave_directory, until_slash,
  is_dot_dot, valid, validate_from, validate_name,
}

-- The bytes of a name that can be one component of a path.
abbrev pub IsComponent : List ℕ → Type 0
IsComponent [] = Unit {0}
IsComponent (c ∷ cs) = (c ≢ 0) × (c ≢ b'/') × IsComponent cs

-- The first bytes of `memory` are this name and its terminator.
pub record Starts (memory : List ℕ) (n : ℕ) : Type 0 where
  pub text : List ℕ
  pub rest : List ℕ
  pub memory_is : memory ≡ text ++ 0 ∷ rest
  pub component : IsComponent text
  pub length_is : length text ≡ n

ended : (c : ℕ) (cs : List ℕ) → (c == 0) ≡ true → Starts (c ∷ cs) 0
ended c cs e = record {
  text = [];
  rest = cs;
  memory_is = ap (λ x. x ∷ cs) (ground arith);
  component = tt;
  length_is = refl;
}

longer :
    (c : ℕ) (cs : List ℕ) {k : ℕ}
    → (c == 0) ≡ false
    → (c == b'/') ≡ false
    → Starts cs k
    → Starts (c ∷ cs) (suc k)
longer c cs e f st = record {
  text = c ∷ st.text;
  rest = st.rest;
  memory_is = ap (◌∷◌ c) st.memory_is;
  component = (ground arith, ground arith, st.component);
  length_is = ap suc st.length_is;
}

injective : {a b : ℕ} → valid a ≡ valid b → a ≡ b
injective q = cc q

validate_from-Starts :
    (i left : ℕ) (memory : List ℕ) {n : ℕ}
    → validate_from i left memory ≡ valid n
    → (k : ℕ) × (n ≡ i + k) × (k ≤ left) × Starts memory k
unfolding validate_from
validate_from-Starts i left [] h = cc
validate_from-Starts i zero (c ∷ cs) h = elim (Bool-cases (c == 0)) [
  | inl e ↦
      let q : valid i ≡ valid _ = rw (e, validate_from) at h in
      (0, omega (arith, injective q), omega arith, ended c cs e)
  | inr e ↦ cc (rw (e, validate_from) at h)
]
validate_from-Starts i (suc left) (c ∷ cs) h = elim (Bool-cases (c == 0)) [
  | inl e ↦
      let q : valid i ≡ valid _ = rw (e, validate_from) at h in
      (0, omega (arith, injective q), omega arith, ended c cs e)
  | inr e ↦ elim (Bool-cases (c == b'/')) [
    | inl f ↦ cc (rw (e, f, validate_from) at h)
    | inr f ↦
        let (k, n_is, le, st) =
          validate_from-Starts (i + 1) left cs (rw (e, f, validate_from) at h) in
        (suc k, omega arith, omega arith, longer c cs e f st)
  ]
]

not_dots :
    (memory : List ℕ) {n : ℕ} (s : Starts memory n)
    → is_dot_dot memory ≡ false
    → s.text ≢ b'.' ∷ b'.' ∷ []
unfolding is_dot_dot
not_dots memory s e = λ d.
    let m : memory ≡ b'.' ∷ b'.' ∷ 0 ∷ s.rest = s.memory_is ∙ ap (λ t. t ++ 0 ∷ s.rest) d in
    let t : is_dot_dot memory ≡ true = ap is_dot_dot m in cc (t, e)

-- What `validateName` accepts is a name that ends at the returned length, within the bound, has no
-- slash, and is not `..`.
pub validate_name_lem :
    (memory : List ℕ) (max_len n : ℕ)
    → validate_name memory max_len ≡ valid n
    → (n ≤ max_len) × (s : Starts memory n) × (s.text ≢ b'.' ∷ b'.' ∷ [])
unfolding validate_name is_dot_dot
validate_name_lem memory max_len n h = elim (Bool-cases (is_dot_dot memory)) [
  | inl e ↦ cc (rw (e, validate_name) at h)
  | inr e ↦
      let (k, n_is, le, st) = validate_from-Starts 0 max_len memory (rw (e, validate_name) at h) in
      let q : k ≡ n = omega arith in
      (omega arith, subst (Starts memory) q st, not_dots memory (subst (Starts memory) q st) e)
]

IsComponent-reverse_aux :
    (xs ys : List ℕ) → IsComponent xs → IsComponent ys → IsComponent (reverse_aux xs ys)
IsComponent-reverse_aux [] ys hx hy = hy
IsComponent-reverse_aux (x ∷ xs) ys hx hy =
    IsComponent-reverse_aux xs (x ∷ ys) (hx.2) (hx.0, hx.1, hy)

until_slash-append :
    (name prefix : List ℕ) → IsComponent name → until_slash (name ++ prefix) ≡ until_slash prefix
unfolding until_slash
until_slash-append [] prefix h = refl
until_slash-append (c ∷ cs) prefix h = ground (arith, until_slash-append cs prefix (h.2))

length-reverse_aux : (xs ys : List ℕ) → length (reverse_aux xs ys) ≡ length xs + length ys
length-reverse_aux [] ys = omega arith
length-reverse_aux (x ∷ xs) ys = omega (arith, length-reverse_aux xs (x ∷ ys))

within : {m n : ℕ} → ltb m n ≡ false → n ≤ m
within e = ground arith

leave_directory-until_slash :
    (entered : List ℕ) → 0 < length entered → leave_directory entered ≡ some (until_slash entered)
unfolding leave_directory
leave_directory-until_slash [] h = ground arith
leave_directory-until_slash (c ∷ cs) h = refl

-- The prefix is left again down to the name that was put in front.
leave_name :
    (entered name prefix : List ℕ)
    → reverse name ++ prefix ≡ entered
    → IsComponent name
    → 0 < length entered
    → leave_directory entered ≡ some (until_slash prefix)
leave_name entered name prefix q c l =
    leave_directory-until_slash entered l
    ∙ ap some (
        ap until_slash (sym q)
        ∙ until_slash-append (reverse name) prefix (IsComponent-reverse_aux name [] c tt))

-- If `enterDirectory` accepts a name without slashes, of 1 to 100 bytes, then the prefix stays
-- inside its array, and `leaveDirectory`, whose assertion holds, gives the earlier prefix back.
pub leave_directory-enter_directory :
    (prefix name : List ℕ) {entered : List ℕ}
    → enter_directory prefix name ≡ some entered
    → IsComponent name
    → 0 < length name
    → length name ≤ max_name_len
    → (leave_directory entered ≡ some prefix) × (length entered ≤ prefix_size)
unfolding enter_directory until_slash
leave_directory-enter_directory [] name {entered} h c some_byte l =
    let q : reverse name ≡ entered = cc h in
    let long : length entered ≡ length name =
      omega (arith, ap length (sym q), length-reverse_aux name []) in
    (leave_name entered name [] (append-nil (reverse name) ∙ q) c (omega arith), omega arith)
leave_directory-enter_directory (p ∷ prefix) name {entered} h c some_byte l =
    elim (Bool-cases (ltb max_prefix_len (length (p ∷ prefix)))) [
      | inl long ↦ cc (rw (long, enter_directory) at h)
      | inr short ↦
          let g : some (reverse name ++ (b'/' ∷ p ∷ prefix)) ≡ some entered =
            rw (short, enter_directory) at h in
          let q : reverse name ++ (b'/' ∷ p ∷ prefix) ≡ entered = cc g in
          let whole : length entered ≡ length name + suc (suc (length prefix)) = omega (
            arith,
            ap length (sym q),
            length-append (reverse name) (b'/' ∷ p ∷ prefix),
            length-reverse_aux name [],
          ) in
          (
            leave_name entered name (b'/' ∷ p ∷ prefix) q c (omega arith),
            omega (arith, whole, within short),
          )
    ]
