-- ===== src/ApiPaths/Merged.antt =====
-- api-paths.ts: what `mergeApiPaths` makes of the paths that are added.
use podokit.Base.{
  none, Option, ◌≡◌, refl, sym, ap, ◌∙◌, ◌⊎◌, inl, inr, Bool, true, some, List, [], ◌∷◌, ◌++◌, map,
  append-nil, append_assoc, arith, Bool-cases, All, Result, ok, err, Text, same_refl, nat_eq,
  text_eq,
}
use podokit.Texts.Sets.{contains, contains-append}
use podokit.Texts.Unions.{map-append}
use podokit.ApiPaths.{
  merge_at, ApiPathError, ApiPathMerge, api_path_base, covers, find, covering_api_path,
  merge_checked, merge_path, merge_each, merge_api_paths,
}

find-append {ℓ} :
    {A : Type ℓ} (p : A → Bool) (xs ys : List A) {x : A}
    → find p xs ≡ some x
    → find p (xs ++ ys) ≡ some x
unfolding find
find-append p [] ys h = absurd (ground arith)
find-append p (x ∷ xs) ys h = elim (Bool-cases (p x)) [
  | inl e ↦ rw e (rw e at h)
  | inr e ↦ rw e (find-append p xs ys (rw e at h))
]

find-some {ℓ} :
    {A : Type ℓ} (p : A → Bool) (xs : List A) (x : A)
    → p x ≡ true
    → (y : A) × (find p (xs ++ (x ∷ [])) ≡ some y)
unfolding find
find-some p [] x h = (x, rw h refl)
find-some p (y ∷ xs) x h = elim (Bool-cases (p y)) [
  | inl e ↦ (y, rw e refl)
  | inr e ↦ let (found, rest) = find-some p xs x h in (found, rw e rest)
]

-- The paths that were left out.
abbrev pub rejected_paths : ApiPathMerge → List Text
rejected_paths s = map (λ entry. entry.0) s.rejected

-- An entry routes the path, or it was left out.
abbrev pub IsHandled : ApiPathMerge → Text → Type 0
IsHandled s path =
    ((entry : Text) × (covering_api_path s.paths path ≡ some entry))
    ⊎ (contains path (rejected_paths s) ≡ true)

-- What is added to the lists.
abbrev Extends : ApiPathMerge → ApiPathMerge → Type 0
Extends s after =
    (more : List Text) × (left : List (Text × ApiPathError)) × (after.paths ≡ s.paths ++ more)
    × (after.added ≡ s.added ++ more)
    × (after.rejected ≡ s.rejected ++ left)

IsHandled-Extends :
    (s after : ApiPathMerge) (path : Text)
    → Extends s after
    → IsHandled s path
    → IsHandled after path
unfolding covering_api_path
IsHandled-Extends s after path (more, left, paths, added, rejected) (inl (entry, h)) = inl (
  entry,
  ap (find (λ entry. covers (api_path_base entry) (api_path_base path))) paths
      ∙ find-append (λ entry. covers (api_path_base entry) (api_path_base path)) s.paths more h,
)
IsHandled-Extends s after path (more, left, paths, added, rejected) (inr h) = inr (
    ap (λ r. contains path (map (λ entry. entry.0) r)) rejected
    ∙ ap (contains path) (map-append (λ entry. entry.0) s.rejected left)
    ∙ contains-append path (rejected_paths s) (map (λ entry. entry.0) left)
    ∙ ground (arith, h))

Extends-refl : (s : ApiPathMerge) → Extends s s
Extends-refl s =
    ([], [], sym (append-nil s.paths), sym (append-nil s.added), sym (append-nil s.rejected))

Extends-trans : (s mid after : ApiPathMerge) → Extends s mid → Extends mid after → Extends s after
Extends-trans s mid after (m, l, p, a, r) (n, k, q, b, t) = (
  m ++ n,
  l ++ k,
  q ∙ ap (λ paths. paths ++ n) p ∙ append_assoc s.paths m n,
  b ∙ ap (λ added. added ++ n) a ∙ append_assoc s.added m n,
  t ∙ ap (λ rejected. rejected ++ k) r ∙ append_assoc s.rejected l k,
)

module _ (validate : List Text → Result ApiPathError (List Text)) where
  abbrev pub IsAccepted : List Text → Type 0
  IsAccepted paths = (validated : List Text) × (validate paths ≡ ok validated)

  abbrev IsStep : ApiPathMerge → Text → ApiPathMerge → Type 0
  IsStep s path after =
      Extends s after × IsHandled after path × (IsAccepted s.paths → IsAccepted after.paths)

  merge_checked-IsStep :
      (path : Text) (s : ApiPathMerge) (checked : Result ApiPathError (List Text))
      → validate (s.paths ++ (path ∷ [])) ≡ checked
      → IsStep s path (merge_checked path checked s)
  unfolding covering_api_path covers contains
  merge_checked-IsStep path s (ok validated) h = (
    (path ∷ [], [], refl, refl, sym (append-nil s.rejected)),
    inl (
        find-some (λ entry. covers (api_path_base entry) (api_path_base path)) s.paths path
          (ground (arith, same_refl (api_path_base path)))),
    λ before. (validated, h),
  )
  merge_checked-IsStep path s (err thrown) h = (
    ([], (path, thrown) ∷ [], sym (append-nil s.paths), sym (append-nil s.added), refl),
    inr (
        ap (contains path) (map-append (λ entry. entry.0) s.rejected ((path, thrown) ∷ []))
        ∙ contains-append path (rejected_paths s) (path ∷ [])
        ∙ ground (arith, same_refl path)),
    λ before. before,
  )

  merge_at-IsStep :
      (path : Text) (s : ApiPathMerge) (covering : Option Text)
      → covering_api_path s.paths path ≡ covering
      → IsStep s path (merge_at validate path s covering)
  merge_at-IsStep path s none e =
      merge_checked-IsStep path s (validate (s.paths ++ (path ∷ []))) refl
  merge_at-IsStep path s (some entry) e = (Extends-refl s, inl (entry, e), λ before. before)

  merge_path-IsStep : (path : Text) (s : ApiPathMerge) → IsStep s path (merge_path validate path s)
  unfolding merge_path
  merge_path-IsStep path s = merge_at-IsStep path s (covering_api_path s.paths path) refl

  merge_each-IsStep :
      (additions : List Text) (s : ApiPathMerge)
      → Extends s (merge_each validate additions s)
        × All (IsHandled (merge_each validate additions s)) additions
        × (IsAccepted s.paths → IsAccepted (merge_each validate additions s).paths)
  unfolding merge_each
  merge_each-IsStep [] s = (Extends-refl s, tt, λ before. before)
  merge_each-IsStep (path ∷ additions) s =
      let mid = merge_path validate path s in
      let first = merge_path-IsStep path s in
      let rest = merge_each-IsStep additions mid in
      (
        Extends-trans s mid _ first.0 rest.0,
        (IsHandled-Extends mid _ path rest.0 first.1, rest.1),
        λ before. rest.2 (first.2 before),
      )

  -- Adding paths to a list that validates gives one that validates: the list, and behind it those that
  -- were added. Each path that should be added is routed by an entry of it, or is one of those rejected.
  pub merge_api_paths-IsAccepted :
      (current additions : List Text)
      → IsAccepted current
      → let merged = merge_api_paths current additions validate in
        IsAccepted merged.paths
        × (merged.paths ≡ current ++ merged.added)
        × All (IsHandled merged) additions
  unfolding merge_api_paths
  merge_api_paths-IsAccepted current additions accepted =
      let start : ApiPathMerge = record { paths = current; added = []; rejected = [] } in
      let merged = merge_each validate additions start in
      let ((more, left, paths, added, rejected), handled, stays) =
        merge_each-IsStep additions start in
      (stays accepted, paths ∙ ap (λ m. current ++ m) (sym added), handled)
