-- ===== src/Project/Recorded.antt =====
-- lockfile.ts, `recordModules`: the modules that the manifest has afterwards.
use podokit.Texts.Unions.{contains-again, map-append}
use mathlib.Core.Path.{subst}
use podokit.Base.{
  ℕ, suc, ◌+◌, ◌≡◌, refl, sym, ap, ◌∙◌, inl, inr, true, false, ◌||◌, List, [], ◌∷◌, ◌++◌, map,
  append_assoc, arith, ltb, ltb→lt, Bool-cases, length, Text, same, nat_eq, text_eq,
}
use podokit.Texts.Sets.{contains, IsDistinct, contains-append, append-IsDistinct}
use podokit.Project.Modules.{ManifestModule, insert_by_order, sort_by_order}
use podokit.Project.Recording.{
  Modules, record_input, ModuleInput, named, record_again, new_module, record_inputs, numbered,
}

abbrev pub names : List ManifestModule → List Text
names modules = map (λ (m : ManifestModule). m.name) modules

abbrev pub input_names : List ModuleInput → List Text
input_names inputs = map (λ (input : ModuleInput). input.name) inputs

-- The modules are numbered in their order.
abbrev pub IsNumbered : ℕ → List ManifestModule → Type 0
IsNumbered order [] = Unit
IsNumbered order (m ∷ modules) = (m.order ≡ order) × IsNumbered (suc order) modules

pub named-contains :
    (name : Text) (modules : List ManifestModule)
    → named name modules ≡ contains name (names modules)
unfolding contains
named-contains name [] = refl
named-contains name (m ∷ modules) = ground (arith, named-contains name modules)

names-record_again :
    (input : ModuleInput) (modules : List ManifestModule)
    → names (record_again input modules) ≡ names modules
unfolding record_again
names-record_again input [] = refl
names-record_again input (m ∷ modules) = elim (Bool-cases (same m.name input.name)) [
  | inl e ↦ rw e refl
  | inr e ↦ rw e (ap (λ rest. m.name ∷ rest) (names-record_again input modules))
]

record_again-IsNumbered :
    (order : ℕ) (input : ModuleInput) (modules : List ManifestModule)
    → IsNumbered order modules
    → IsNumbered order (record_again input modules)
unfolding record_again
record_again-IsNumbered order input [] h = tt
record_again-IsNumbered order input (m ∷ modules) h = elim (Bool-cases (same m.name input.name)) [
  | inl e ↦ rw e h
  | inr e ↦ rw e (h.0, record_again-IsNumbered (suc order) input modules h.1)
]

pub IsNumbered-append :
    (order : ℕ) (modules fresh : List ManifestModule)
    → IsNumbered order modules
    → IsNumbered (order + length modules) fresh
    → IsNumbered order (modules ++ fresh)
IsNumbered-append order [] fresh h k = subst (λ n. IsNumbered n fresh) (omega arith) k
IsNumbered-append order (m ∷ modules) fresh h k = (
  h.0,
  IsNumbered-append (suc order) modules fresh h.1 (subst (λ n. IsNumbered n fresh) (omega arith) k),
)

pub numbered-IsNumbered :
    (order : ℕ) (modules : List ManifestModule) → IsNumbered order (numbered order modules)
unfolding numbered
numbered-IsNumbered order [] = tt
numbered-IsNumbered order (m ∷ modules) = (refl, numbered-IsNumbered (suc order) modules)

pub names-numbered :
    (order : ℕ) (modules : List ManifestModule) → names (numbered order modules) ≡ names modules
unfolding numbered
names-numbered order [] = refl
names-numbered order (m ∷ modules) = ap (λ rest. m.name ∷ rest) (names-numbered (suc order) modules)

insert_by_order-first :
    (order : ℕ) (m : ManifestModule) (modules : List ManifestModule)
    → IsNumbered order (m ∷ modules)
    → insert_by_order m modules ≡ m ∷ modules
unfolding insert_by_order
insert_by_order-first order m [] h = refl
insert_by_order-first order m (n ∷ modules) h =
    let after : ltb n.order m.order ≡ false = ground (arith, ltb→lt n.order m.order, h.0, h.1.0) in
    rw after refl

pub sort_by_order-IsNumbered :
    (order : ℕ) (modules : List ManifestModule)
    → IsNumbered order modules
    → sort_by_order modules ≡ modules
unfolding sort_by_order
sort_by_order-IsNumbered order [] h = refl
sort_by_order-IsNumbered order (m ∷ modules) h =
    ap (insert_by_order m) (sort_by_order-IsNumbered (suc order) modules h.1)
    ∙ insert_by_order-first order m modules h

length-record_again :
    (input : ModuleInput) (modules : List ManifestModule)
    → length (record_again input modules) ≡ length modules
unfolding record_again
length-record_again input [] = refl
length-record_again input (m ∷ modules) = ground (arith, length-record_again input modules)

-- The modules and the fresh ones are numbered one after the other, and no name stands twice.
abbrev pub IsRecording : Modules → Type 0
IsRecording (modules, fresh) =
    IsNumbered 0 modules
    × IsNumbered (length modules) fresh
    × IsDistinct (names modules ++ names fresh)

abbrev pub all_names : Modules → List Text
all_names (modules, fresh) = names modules ++ names fresh

-- What recording an input, or several, keeps and adds.
abbrev pub Recorded : List Text → Modules → Modules → Type 0
Recorded added before after =
    IsRecording after
    × (names after.0 ≡ names before.0)
    × ((t : Text)
        → contains t (all_names after) ≡ (contains t (all_names before) || contains t added))

record_input-fresh :
    (stamped_with : Text) (input : ModuleInput) (modules fresh : List ManifestModule)
    → IsRecording (modules, fresh)
    → contains input.name (names modules) ≡ false
    → contains input.name (names fresh) ≡ false
    → Recorded
        (input.name ∷ [])
        (modules, fresh)
        (modules, fresh ++ (new_module stamped_with (length modules + length fresh) input ∷ []))
record_input-fresh stamped_with input modules fresh h e f =
    let new = new_module stamped_with (length modules + length fresh) input in
    let together : names modules ++ names (fresh ++ (new ∷ []))
        ≡ (names modules ++ names fresh) ++ (input.name ∷ []) =
      ap (λ rest. names modules ++ rest)
        (map-append (λ (m : ManifestModule). m.name) fresh (new ∷ []))
      ∙ sym (append_assoc (names modules) (names fresh) (input.name ∷ [])) in
    (
      (
        h.0,
        IsNumbered-append (length modules) fresh (new ∷ []) h.1 (refl, tt),
        subst IsDistinct (sym together) (
            append-IsDistinct input.name (names modules ++ names fresh) h.2
              (contains-append input.name (names modules) (names fresh) ∙ ground (arith, e, f))),
      ),
      refl,
      λ t.
          ap (contains t) together
          ∙ contains-append t (names modules ++ names fresh) (input.name ∷ []),
    )

record_again-modules :
    (input : ModuleInput) (modules fresh : List ManifestModule)
    → IsRecording (modules, fresh)
    → contains input.name (names modules) ≡ true
    → Recorded (input.name ∷ []) (modules, fresh) (record_again input modules, fresh)
record_again-modules input modules fresh h e =
    let same_names = names-record_again input modules in
    let together = ap (λ before. before ++ names fresh) same_names in
    (
      (
        record_again-IsNumbered 0 input modules h.0,
        subst (λ n. IsNumbered n fresh) (sym (length-record_again input modules)) h.1,
        subst IsDistinct (sym together) h.2,
      ),
      same_names,
      λ t.
          ap (contains t) together
          ∙ contains-again t input.name (names modules ++ names fresh)
              (contains-append input.name (names modules) (names fresh) ∙ ground (arith, e)),
    )

record_again-fresh :
    (input : ModuleInput) (modules fresh : List ManifestModule)
    → IsRecording (modules, fresh)
    → contains input.name (names fresh) ≡ true
    → Recorded (input.name ∷ []) (modules, fresh) (modules, record_again input fresh)
record_again-fresh input modules fresh h e =
    let together = ap (λ rest. names modules ++ rest) (names-record_again input fresh) in
    (
      (
        h.0,
        record_again-IsNumbered (length modules) input fresh h.1,
        subst IsDistinct (sym together) h.2,
      ),
      refl,
      λ t.
          ap (contains t) together
          ∙ contains-again t input.name (names modules ++ names fresh)
              (contains-append input.name (names modules) (names fresh) ∙ ground (arith, e)),
    )

record_input-Recorded :
    (stamped_with : Text) (input : ModuleInput) (modules fresh : List ManifestModule)
    → IsRecording (modules, fresh)
    → Recorded (input.name ∷ []) (modules, fresh) (record_input stamped_with input (modules, fresh))
unfolding record_input
record_input-Recorded stamped_with input modules fresh h =
    elim (Bool-cases (named input.name modules)) [
      | inl e ↦
          rw e (
            record_again-modules input modules fresh h
              (sym (named-contains input.name modules) ∙ e))
      | inr e ↦ elim (Bool-cases (named input.name fresh)) [
        | inl f ↦
            rw (e, f)
              (record_again-fresh input modules fresh h (sym (named-contains input.name fresh) ∙ f))
        | inr f ↦
            rw (e, f)
              (record_input-fresh stamped_with input modules fresh h
                (sym (named-contains input.name modules) ∙ e)
                (sym (named-contains input.name fresh) ∙ f))
      ]
    ]

pub record_inputs-Recorded :
    (stamped_with : Text) (inputs : List ModuleInput) (modules : Modules)
    → IsRecording modules
    → Recorded (input_names inputs) modules (record_inputs stamped_with inputs modules)
unfolding record_inputs contains
record_inputs-Recorded stamped_with [] modules h = (h, refl, λ t. ground arith)
record_inputs-Recorded stamped_with (input ∷ inputs) modules h =
    let first = record_input-Recorded stamped_with input modules.0 modules.1 h in
    let rest =
      record_inputs-Recorded stamped_with inputs (record_input stamped_with input modules)
        first.0 in
    (rest.0, rest.1 ∙ first.1, λ t. rest.2 t ∙ ground (arith, first.2 t))
