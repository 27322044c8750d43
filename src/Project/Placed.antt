-- ===== src/Project/Placed.antt =====
-- lockfile.ts, `recordModules`: where the modules that are new stand among those recorded.
use podokit.Base.{
  ◌≡◌, refl, sym, ap, ◌∙◌, ◌≢◌, inl, inr, true, ◌||◌, Option, none, some, List, [], ◌∷◌, ◌++◌,
  append-nil, arith, Bool-cases, length, Text, same, same_iff, nat_eq, text_eq,
}
use mathlib.Core.Path.{subst}
use podokit.Texts.Sets.{contains, IsDistinct, contains-append}
use podokit.Texts.Unions.{map-append, insert-IsDistinct}
use podokit.Project.Modules.{sort_by_order, ManifestModule, truthy}
use podokit.Project.Recording.{
  ModuleInput, Manifest, Modules, named, insert_at_name, place, record_inputs, recorded_manifest,
}
use podokit.Project.Recorded.{
  record_inputs-Recorded, input_names, numbered-IsNumbered, names-numbered,
  sort_by_order-IsNumbered, IsNumbered-append, names, IsNumbered, named-contains,
}

-- The fresh modules stand together among the others, which keep their order: in front of the module
-- that is named, if it is there.
abbrev pub ArePlaced : Option Text → List Text → List Text → List Text → Type 0
ArePlaced insert_before old fresh result =
    (front : List Text) × (back : List Text) × (old ≡ front ++ back)
    × (result ≡ front ++ (fresh ++ back))
    × ((before : Text)
        → insert_before ≡ some before
        → contains before old ≡ true
        → (rest : List Text) × (back ≡ before ∷ rest))

insert_at_name-ArePlaced :
    (before : Text) (fresh modules : List ManifestModule)
    → named before modules ≡ true
    → ArePlaced
        (some before)
        (names modules)
        (names fresh)
        (names (insert_at_name before fresh modules))
unfolding insert_at_name
insert_at_name-ArePlaced before fresh [] h = absurd (ground arith)
insert_at_name-ArePlaced before fresh (m ∷ modules) h = elim (Bool-cases (same m.name before)) [
  | inl e ↦ rw e (
    [],
    names (m ∷ modules),
    refl,
    map-append (λ (m : ManifestModule). m.name) fresh (m ∷ modules),
    λ b chosen there.
        let first : m.name ≡ before = (same_iff m.name before).0 e in
        let again : before ≡ b = cc in
        (names modules, ap (λ name. name ∷ names modules) (first ∙ again)),
  )
  | inr e ↦
      let later : named before modules ≡ true = ground (arith, h, e) in
      let (front, back, whole, placed, starts) =
        insert_at_name-ArePlaced before fresh modules later in
      rw e (
        m.name ∷ front,
        back,
        ap (λ rest. m.name ∷ rest) whole,
        ap (λ rest. m.name ∷ rest) placed,
        λ b chosen there.
            let again : before ≡ b = cc in
            starts b chosen (
              sym (ap (λ b. contains b (names modules)) again)
              ∙ sym (named-contains before modules)
              ∙ later),
      )
]

append-ArePlaced :
    (insert_before : Option Text) (modules fresh : List ManifestModule)
    → ((before : Text) → insert_before ≡ some before → contains before (names modules) ≢ true)
    → ArePlaced insert_before (names modules) (names fresh) (names (modules ++ fresh))
append-ArePlaced insert_before modules fresh absent = (
  names modules,
  [],
  sym (append-nil (names modules)),
  map-append (λ (m : ManifestModule). m.name) modules fresh
      ∙ ap (λ rest. names modules ++ rest) (sym (append-nil (names fresh))),
  λ before chosen there. absurd (absent before chosen there),
)

place-ArePlaced :
    (insert_before : Option Text) (modules fresh : List ManifestModule)
    → IsNumbered 0 modules
    → ArePlaced insert_before
        (names modules)
        (names fresh)
        (names (place insert_before modules fresh))
unfolding place
place-ArePlaced none modules fresh h =
    append-ArePlaced none modules fresh (λ before chosen. absurd (ground arith))
place-ArePlaced (some before) modules fresh h = elim (Bool-cases (named before modules)) [
  | inl e ↦
      rw
        (
          e,
          sort_by_order-IsNumbered 0 modules h,
          names-numbered 0 (insert_at_name before fresh modules),
        )
        (insert_at_name-ArePlaced before fresh modules e)
  | inr e ↦ rw e (
      append-ArePlaced (some before) modules fresh (λ b chosen there.
        let again : before ≡ b = cc in
        ground (
          arith,
          ap (λ b. contains b (names modules)) again,
          named-contains before modules,
          e,
          there,
        )))
]

append-IsNumbered :
    (modules fresh : List ManifestModule)
    → IsNumbered 0 modules
    → IsNumbered (length modules) fresh
    → IsNumbered 0 (modules ++ fresh)
append-IsNumbered modules fresh h k =
    IsNumbered-append 0 modules fresh h (subst (λ n. IsNumbered n fresh) (omega arith) k)

place-IsNumbered :
    (insert_before : Option Text) (modules fresh : List ManifestModule)
    → IsNumbered 0 modules
    → IsNumbered (length modules) fresh
    → IsNumbered 0 (place insert_before modules fresh)
unfolding place
place-IsNumbered none modules fresh h k = append-IsNumbered modules fresh h k
place-IsNumbered (some before) modules fresh h k = elim (Bool-cases (named before modules)) [
  | inl e ↦ rw e (numbered-IsNumbered 0 (insert_at_name before fresh (sort_by_order modules)))
  | inr e ↦ rw e (append-IsNumbered modules fresh h k)
]

placed-IsDistinct :
    (insert_before : Option Text) (old fresh result : List Text)
    → ArePlaced insert_before old fresh result
    → IsDistinct (old ++ fresh)
    → IsDistinct result
placed-IsDistinct insert_before old fresh result (front, back, whole, placed, starts) s =
    subst IsDistinct (sym placed)
      (insert-IsDistinct front back fresh (subst (λ old. IsDistinct (old ++ fresh)) whole s))

contains-placed :
    (insert_before : Option Text) (old fresh result : List Text) (t : Text)
    → ArePlaced insert_before old fresh result
    → contains t result ≡ (contains t old || contains t fresh)
contains-placed insert_before old fresh result t (front, back, whole, placed, starts) =
    ap (contains t) placed
    ∙ ground (
      arith,
      contains-append t front (fresh ++ back),
      contains-append t fresh back,
      contains-append t front back,
      ap (contains t) whole,
    )

-- The names of the modules that a manifest has.
abbrev pub names_in : Manifest → List Text
names_in manifest = names manifest.modules

-- Recording modules in a manifest whose modules are numbered in their order and have different names
-- gives such a manifest, with all the modules that it had in the order in which they were, and all that
-- are recorded; the new ones stand together, in front of the one that is named if it is there.
pub recorded_manifest-IsRecorded :
    (stamped_with : Text) (inputs : List ModuleInput) (owned_globs managed_overrides : List Text)
    (insert_before : Option Text) (manifest : Manifest)
    → IsNumbered 0 manifest.modules
    → IsDistinct (names_in manifest)
    → let after =
        recorded_manifest stamped_with inputs owned_globs managed_overrides insert_before
          manifest in
      IsNumbered 0 after.modules
      × IsDistinct (names_in after)
      × ((t : Text)
          → contains t (names_in after)
            ≡ (contains t (names_in manifest) || contains t (input_names inputs)))
      × ((fresh : List Text) × ArePlaced
            (truthy insert_before)
            (names_in manifest)
            fresh
            (names_in after))
unfolding recorded_manifest
recorded_manifest-IsRecorded stamped_with inputs owned_globs managed_overrides insert_before
      manifest numbers distinct =
    let start : Modules = (manifest.modules, []) in
    let distinct_start : IsDistinct (names_in manifest ++ []) =
      subst IsDistinct (sym (append-nil (names_in manifest))) distinct in
    let recorded = record_inputs-Recorded stamped_with inputs start (numbers, tt, distinct_start) in
    let result = record_inputs stamped_with inputs start in
    let placed = place-ArePlaced (truthy insert_before) result.0 result.1 recorded.0.0 in
    (
      place-IsNumbered (truthy insert_before) result.0 result.1 recorded.0.0 recorded.0.1,
      placed-IsDistinct _ _ _ _ placed recorded.0.2,
      λ t.
          contains-placed _ _ _ _ t placed
          ∙ sym (contains-append t (names result.0) (names result.1))
          ∙ recorded.2 t
          ∙ ap (λ old. contains t old || contains t (input_names inputs))
              (append-nil (names_in manifest)),
      (
        names result.1,
        subst
            (λ old.
              ArePlaced (truthy insert_before) old (names result.1)
                (names (place (truthy insert_before) result.0 result.1)))
            recorded.1 placed,
      ),
    )
