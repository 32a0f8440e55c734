-- ===== src/Registry/Replace.antt =====
-- What renaming and `replace_filename` do to the watches.
use inotify_tools.Prelude.{
  ℕ, ◌≡◌, Bytes, true, false, none, some, List, [], ◌∷◌, arith, ◌==◌, is_empty, if◌then◌else◌,
  until_nul, ◌⊎◌, inl, inr, Bool-cases, Option-cases, ◌∙◌, ap, refl, ◌≢◌, Bool, not, ◌&&◌, ◌++◌,
  eqb, take, drop, length, starts_with,
}
use inotify_tools.Prelude.Ord.{nat_ord, bytes_ord}
use inotify_tools.BTreeMap.{get, values, get-modify}
use inotify_tools.BTreeMap.Once.{AtMostOnce, mem, mem-values, key_of_mem, values-AtMostOnce}
use inotify_tools.Handle.{Inotifytools, Watch}
use inotify_tools.Registry.{rename, replaced, replace_one, replace_each, replace_filename}
use inotify_tools.Registry.Invariant.{Inv, rename-Inv}

-- a name behind which the old prefix is replaced by the new one, up to the first NUL
unfoldable pub moved : Bytes → Bytes → Bytes → Bytes
moved oldname newname name =
    if eqb (take (length oldname) name) oldname && not (eqb name newname)
    then until_nul (newname ++ drop (length oldname) name)
    else name

unfoldable pub renamed : Bytes → Bytes → Watch → Watch
unfolding moved
renamed oldname newname w = record w { filename = moved oldname newname w.filename }

-- the watch as a visit by the loop leaves it
unfoldable revised : Bytes → Bytes → Watch → Watch
revised oldname newname w = elim (replaced oldname newname w.filename) [
  | none ↦ w
  | some name ↦ record w { filename = until_nul name }
]

starts_with-take : (name p : Bytes) → starts_with name p ≡ eqb (take (length p) name) p
unfolding starts_with eqb
starts_with-take name [] = refl
starts_with-take [] (c ∷ p) = refl
starts_with-take (x ∷ name) (c ∷ p) = ap (λ (b : Bool). (x == c) && b) (starts_with-take name p)

revised-renamed :
    (oldname newname : Bytes) (w : Watch) → revised oldname newname w ≡ renamed oldname newname w
unfolding revised renamed replaced
revised-renamed oldname newname w =
    elim (Bool-cases
      (eqb (take (length oldname) w.filename) oldname && not (eqb w.filename newname))) [
        | inl e ↦ ground (arith, e, starts_with-take w.filename oldname)
        | inr e ↦ ground (arith, e, starts_with-take w.filename oldname)
      ]

get-rename :
    (l : Inotifytools) (id : ℕ) (w : Watch) (name : Bytes) (j : ℕ) (u : Watch)
    → get j l.watches ≡ some u
    → get j (rename l id w name).watches
      ≡ some (if id == j then record u { filename = until_nul name } else u)
unfolding rename
get-rename l id w name j u h =
    ground
      (arith, get-modify id j (λ (w : Watch). record w { filename = until_nul name }) l.watches)

get-replace_one :
    (oldname newname : Bytes) (l : Inotifytools) (id j : ℕ) (u : Watch)
    → get j l.watches ≡ some u
    → get j (replace_one oldname newname l id).watches
      ≡ some (if id == j then revised oldname newname u else u)
unfolding replace_one revised
get-replace_one oldname newname l id j u h = elim (Option-cases (get id l.watches)) [
  | inl e ↦ ground (arith, e)
  | inr (w, e) ↦ elim (Option-cases (replaced oldname newname w.filename)) [
    | inl none_new ↦ ground (arith, e, none_new)
    | inr (name, to) ↦ ground (arith, e, to, get-rename l id w name j u)
  ]
]

get-replace_each :
    (oldname newname : Bytes) (ids : List ℕ) (l : Inotifytools) (j : ℕ) (u : Watch)
    → AtMostOnce j ids
    → get j l.watches ≡ some u
    → get j (replace_each oldname newname l ids).watches
      ≡ some (if mem j ids then revised oldname newname u else u)
unfolding replace_each mem
get-replace_each oldname newname [] l j u once h = h
get-replace_each oldname newname (id ∷ ids) l j u once h = elim (Bool-cases (id == j)) [
  | inl e ↦ ground (
    arith,
    e,
    once.0,
    get-replace_each oldname newname ids (replace_one oldname newname l id) j
        (revised oldname newname u) once.1
        (ground (arith, e, get-replace_one oldname newname l id j u)),
  )
  | inr e ↦ ground (
    arith,
    e,
    get-replace_each oldname newname ids (replace_one oldname newname l id) j u once.1
        (ground (arith, e, get-replace_one oldname newname l id j u)),
  )
]

replace_filename-revised :
    (l : Inotifytools) (oldname newname : Bytes) (id : ℕ) (w : Watch)
    → Inv l
    → oldname ≢ []
    → newname ≢ []
    → get id l.watches ≡ some w
    → get id (replace_filename l oldname newname).watches
      ≡ some (elim (get w.filename l.by_filename) [
        | none ↦ w
        | some j ↦ if j == id then revised oldname newname w else w
      ])
unfolding replace_filename
replace_filename-revised l oldname newname id w v old_some new_some h =
    simp (old_is, new_is)
      (get-replace_each oldname newname (values l.by_filename) l id w once h
        ∙ ap some (visited (Bool-cases (mem id (values l.by_filename)))))
  where
    old_is : is_empty oldname ≡ false
    old_is = ground arith

    new_is : is_empty newname ≡ false
    new_is = ground arith

    only : (k : Bytes) → get k l.by_filename ≡ some id → k ≡ w.filename
    only k g = ground (arith, v.name_index k id g)

    once : AtMostOnce id (values l.by_filename)
    once = values-AtMostOnce id w.filename l.by_filename v.names_once only

    visited :
        (mem id (values l.by_filename) ≡ true) ⊎ (mem id (values l.by_filename) ≡ false)
        → (if mem id (values l.by_filename) then revised oldname newname w else w)
          ≡ (elim (get w.filename l.by_filename) [
            | none ↦ w
            | some j ↦ if j == id then revised oldname newname w else w
          ])
    visited (inl m) =
        let (k, g) = key_of_mem id l.by_filename v.names_once m in ground (arith, m, g, only k g)
    visited (inr m) = ground (arith, m, mem-values w.filename id l.by_filename)

-- After `replace_filename` with two names that are not empty, a watch that was found under its
-- name has the old prefix of that name replaced by the new one, if it had the prefix and was not
-- already named as the new one; every other part of it, and every watch that was not found under
-- its name, is as before. In particular no watch is renamed twice.
pub replace_filename_lem :
    (l : Inotifytools) (oldname newname : Bytes) (id : ℕ) (w : Watch)
    → Inv l
    → oldname ≢ []
    → newname ≢ []
    → get id l.watches ≡ some w
    → get id (replace_filename l oldname newname).watches
      ≡ some (elim (get w.filename l.by_filename) [
        | none ↦ w
        | some j ↦ if j == id then renamed oldname newname w else w
      ])
replace_filename_lem l oldname newname id w v old_some new_some h =
    replace_filename-revised l oldname newname id w v old_some new_some h
    ∙ ap
        (λ (r : Watch).
          some
            (elim (get w.filename l.by_filename) [ none ↦ w | some j ↦ if j == id then r else w ]))
        (revised-renamed oldname newname w)

-- a visit changes nothing, or renames the watch
pub replace_one_cases :
    (oldname newname : Bytes) (l : Inotifytools) (id : ℕ)
    → (replace_one oldname newname l id ≡ l)
      ⊎ ((w : Watch) × (name : Bytes) × (get id l.watches ≡ some w)
          × (replace_one oldname newname l id ≡ rename l id w name))
unfolding replace_one
replace_one_cases oldname newname l id = elim (Option-cases (get id l.watches)) [
  | inl e ↦ inl (ground (arith, e))
  | inr (w, e) ↦ elim (Option-cases (replaced oldname newname w.filename)) [
    | inl same_name ↦ inl (ground (arith, e, same_name))
    | inr (name, to) ↦ inr (w, name, e, ground (arith, e, to))
  ]
]

replace_one-Inv :
    (oldname newname : Bytes) (l : Inotifytools) (id : ℕ)
    → Inv l
    → Inv (replace_one oldname newname l id)
replace_one-Inv oldname newname l id v = elim (replace_one_cases oldname newname l id) [
  | inl e ↦ rw e v
  | inr (w, name, h, e) ↦ rw e (rename-Inv l id w name h v)
]

pub replace_each-Inv :
    (oldname newname : Bytes) (ids : List ℕ) (l : Inotifytools)
    → Inv l
    → Inv (replace_each oldname newname l ids)
unfolding replace_each
replace_each-Inv oldname newname [] l v = v
replace_each-Inv oldname newname (id ∷ ids) l v =
    replace_each-Inv oldname newname ids (replace_one oldname newname l id)
      (replace_one-Inv oldname newname l id v)

pub replace_filename-Inv :
    (l : Inotifytools) (oldname newname : Bytes) → Inv l → Inv (replace_filename l oldname newname)
unfolding replace_filename
replace_filename-Inv l oldname newname v = elim (Bool-cases (is_empty oldname)) [
  | inl e ↦ rw e v
  | inr e ↦ elim (Bool-cases (is_empty newname)) [
    | inl e' ↦ rw (e, e') v
    | inr e' ↦ rw (e, e') (replace_each-Inv oldname newname (values l.by_filename) l v)
  ]
]
