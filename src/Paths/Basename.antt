-- ===== src/Paths/Basename.antt =====
-- What `basename` returns.
use inotify_tools.Prelude.{
  ℕ, zero, suc, ◌+◌, ◌-◌, ◌≤◌, ◌<◌, ◌≡◌, refl, Bytes, false, ◌&&◌, none, some, [], ◌∷◌, ◌++◌, arith,
  ◌==◌, ltb, length, take, drop, get_or, eqb, eqb_sound, eqb_refl, ◌⊎◌, ◌≢◌, inl, inr, Bool-cases,
  Option-cases, ap, sym, ◌∙◌, All, take_of_length-le, length-append, length-take,
}
use mathlib.Core.List.{append_assoc, append-nil}
use inotify_tools.Paths.{slash, trim_end, rposition, after_slash, basename}

abbrev pub NoSlash : Bytes → Type 0
NoSlash = All (λ c. c ≢ slash)

abbrev pub Slashes : Bytes → Type 0
Slashes = All (λ c. c ≡ slash)

rposition-none : (t : Bytes) → rposition slash t ≡ none → NoSlash t
unfolding rposition
rposition-none [] h = tt
rposition-none (x ∷ t) h = elim (Option-cases (rposition slash t)) [
  | inl e ↦ ((λ p. ground (arith, e, h, p)), rposition-none t e)
  | inr (i, e) ↦ absurd (ground (arith, e, h))
]

-- a text splits behind its last slash
rposition-some :
    (t : Bytes) (i : ℕ)
    → rposition slash t ≡ some i
    → (p : Bytes) × (t ≡ (p ++ (slash ∷ [])) ++ drop (suc i) t) × NoSlash (drop (suc i) t)
unfolding rposition
rposition-some [] i h = absurd (ground arith)
rposition-some (x ∷ t) i h = elim (Option-cases (rposition slash t)) [
  | inl e ↦ elim (Bool-cases (x == slash)) [
    | inl q ↦ ([], ground (arith, e, q, h), ground (arith, e, q, h, rposition-none t e))
    | inr q ↦ absurd (ground (arith, e, q, h))
  ]
  | inr (j, e) ↦
      let rest = rposition-some t j e in
      let same : i ≡ suc j = ground (arith, e, h) in rw same (x ∷ rest.0, ap (◌∷◌ x) rest.1, rest.2)
]

take-suc : (s : Bytes) (n : ℕ) → n < length s → take (suc n) s ≡ take n s ++ (get_or s n 0 ∷ [])
take-suc [] n h = absurd (omega arith)
take-suc (x ∷ s) zero h = refl
take-suc (x ∷ s) (suc n) h = ap (◌∷◌ x) (take-suc s n (omega arith))

Slashes-snoc : (s : Bytes) (c : ℕ) → Slashes s → c ≡ slash → Slashes (s ++ (c ∷ []))
Slashes-snoc [] c h e = (e, tt)
Slashes-snoc (x ∷ s) c h e = (h.0, Slashes-snoc s c h.1 e)

-- what `trim_end` cuts off is slashes
trim_end-Slashes :
    (e : ℕ) (path : Bytes)
    → e ≤ length path
    → (post : Bytes) × (take e path ≡ take (trim_end e path) path ++ post) × Slashes post
unfolding trim_end
trim_end-Slashes zero path h = ([], refl, tt)
trim_end-Slashes (suc e) path h = elim (Bool-cases (ltb 0 e && get_or path e 0 == slash)) [
  | inr q ↦ rw q ([], sym (append-nil _), tt)
  | inl q ↦
      let (post, f, s) = trim_end-Slashes e path (omega arith) in
      rw q (
        post ++ (get_or path e 0 ∷ []),
        take-suc path e (omega arith)
            ∙ ap (λ (t : Bytes). t ++ (get_or path e 0 ∷ [])) f
            ∙ append_assoc (take (trim_end e path) path) post _,
        Slashes-snoc post _ s (ground (arith, q)),
      )
]

-- and what it leaves ends in no slash, unless it is one byte
trim_end-last :
    (e : ℕ) (path : Bytes)
    → 0 < e
    → (0 < trim_end e path)
      × (trim_end e path ≤ e)
      × ((trim_end e path ≡ 1) ⊎ (get_or path (trim_end e path - 1) 0 ≢ slash))
unfolding trim_end
trim_end-last zero path h = absurd (omega arith)
trim_end-last (suc e) path h = elim (Bool-cases (ltb 0 e && get_or path e 0 == slash)) [
  | inl q ↦ let (a, b, c) = trim_end-last e path (ground (arith, q)) in rw q (a, omega arith, c)
  | inr q ↦ rw q (omega arith, omega arith, ground (arith, q))
]

get_or-append : (p : Bytes) (c : ℕ) → get_or (p ++ (c ∷ [])) (length p) 0 ≡ c
get_or-append [] c = refl
get_or-append (x ∷ p) c = get_or-append p c

get_or-take : (n i : ℕ) (s : Bytes) → i < n → get_or (take n s) i 0 ≡ get_or s i 0
get_or-take zero i s h = absurd (omega arith)
get_or-take (suc n) i [] h = refl
get_or-take (suc n) zero (x ∷ s) h = refl
get_or-take (suc n) (suc i) (x ∷ s) h = get_or-take n i s (omega arith)

-- a text that does not end in a slash has something behind its last slash
behind_slash :
    (t p d : Bytes)
    → t ≡ (p ++ (slash ∷ [])) ++ d
    → (length t ≡ 1) ⊎ (get_or t (length t - 1) 0 ≢ slash)
    → eqb t (slash ∷ []) ≡ false
    → 0 < length d
behind_slash t p (x ∷ d) e last other = omega arith
behind_slash t p [] e last other =
    let whole : t ≡ p ++ (slash ∷ []) = e ∙ append-nil _ in
    let len : length t ≡ length p + 1 =
      ap (λ (y : Bytes). length y) whole ∙ length-append p (slash ∷ []) in
    let at_end : get_or t (length p) 0 ≡ slash = rw whole (get_or-append p slash) in
    elim last [
      | inl one ↦ absurd (only p whole (omega (arith, one, len)))
      | inr ends ↦ absurd (ground (arith, ends, at_end, len))
    ]
  where
    only : (q : Bytes) → t ≡ q ++ (slash ∷ []) → length q ≡ 0 → ⊥
    only [] w z =
        ground (arith, other, ap (λ (y : Bytes). eqb y (slash ∷ [])) w, eqb_refl (slash ∷ []))
    only (c ∷ q) w z = absurd (omega (arith, z))

after_slash-none : (t : Bytes) → rposition slash t ≡ none → after_slash t ≡ t
unfolding after_slash
after_slash-none t e = rw (after_slash, e)

after_slash-some : (t : Bytes) (i : ℕ) → rposition slash t ≡ some i → after_slash t ≡ drop (suc i) t
unfolding after_slash
after_slash-some t i e = rw (after_slash, e)

-- For a path that is not empty, `basename` returns a part of it that is not empty: nothing but
-- slashes follows it, and it has no slash and begins the path or follows a slash, or is "/".
pub basename_lem :
    (path : Bytes)
    → path ≢ []
    → (pre : Bytes) × (post : Bytes) × (path ≡ (pre ++ basename path) ++ post)
      × Slashes post
      × (0 < length (basename path))
      × ((basename path ≡ slash ∷ [])
          ⊎ (NoSlash (basename path) × ((pre ≡ []) ⊎ ((p : Bytes) × (pre ≡ p ++ (slash ∷ []))))))
unfolding basename
basename_lem [] h = absurd (h refl)
basename_lem (c ∷ s) h =
    let path = c ∷ s in
    let e = trim_end (length path) path in
    let t = take e path in
    let (post, f, sl) = trim_end-Slashes (length path) path (omega arith) in
    let (pos, le, last) = trim_end-last (length path) path (omega arith) in
    let whole : path ≡ t ++ post = sym (take_of_length-le (length path) path (omega arith)) ∙ f in
    let len : length t ≡ e = omega (arith, length-take e path, le) in
    let last' : (length t ≡ 1) ⊎ (get_or t (length t - 1) 0 ≢ slash) = elim last [
      | inl one ↦ inl (len ∙ one)
      | inr ends ↦ inr (λ q. ends (
          sym (get_or-take e (e - 1) path (omega arith))
          ∙ ap (λ (k : ℕ). get_or t (k - 1) 0) (sym len)
          ∙ q))
    ] in
    elim (Bool-cases (eqb t (slash ∷ []))) [
      | inl q ↦ rw q (
        [],
        post,
        whole ∙ ap (λ (y : Bytes). y ++ post) (eqb_sound _ _ q),
        sl,
        omega arith,
        inl refl,
      )
      | inr q ↦ elim (Option-cases (rposition slash t)) [
        | inl r ↦
            rw (q, after_slash-none t r)
              ([], post, whole, sl, omega (arith, len, pos), inr (rposition-none t r, inl refl))
        | inr (i, r) ↦
            let (p, w, n) = rposition-some t i r in
            rw (q, after_slash-some t i r)
              (
                p ++ (slash ∷ []),
                post,
                whole ∙ ap (λ (y : Bytes). y ++ post) w,
                sl,
                behind_slash t p (drop (suc i) t) w last' q,
                inr (n, inr (p, refl)),
              )
      ]
    ]
