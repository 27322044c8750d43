-- ===== src/Providers/Resolved.antt =====
-- What a resolved selection is.
use podokit.Base.{
  ◌≡◌, refl, ◌⊎◌, inl, inr, true, false, Option, Bool-cases, Result, ok, err, Text, nat_eq, text_eq,
}
use podokit.Providers.{
  Capability, database, cache, object_storage, events, jobs, is_provider_name, Selections, selected,
  Error, unknown_provider, or_server, resolve_one, resolve_selections,
}

-- Every provider is the one selected, or the default, and is known; or the error names one that is not.
abbrev pub IsResolved : (Capability → Option Text) → Result Error Selections → Type 0
IsResolved selections (ok s) =
    (c : Capability)
    → (selected s c ≡ or_server (selections c) c) × (is_provider_name c (selected s c) ≡ true)
IsResolved selections (err (unknown_provider c value)) =
    (value ≡ or_server (selections c) c) × (is_provider_name c value ≡ false)

resolve_one-cases :
    (selections : Capability → Option Text) (c : Capability)
    → (is_provider_name c (or_server (selections c) c) ≡ true)
        × (resolve_one selections c ≡ ok (or_server (selections c) c))
      ⊎ (is_provider_name c (or_server (selections c) c) ≡ false)
        × (resolve_one selections c ≡ err (unknown_provider c (or_server (selections c) c)))
unfolding resolve_one
resolve_one-cases selections c =
    elim (Bool-cases (is_provider_name c (or_server (selections c) c))) [
      | inl e ↦ inl (e, rw (e, resolve_one) refl)
      | inr e ↦ inr (e, rw (e, resolve_one) refl)
    ]

-- A selection is resolved exactly if every provider in it, or its default where none is given, is known
-- for its capability, and then it is what was given or the default; otherwise the error names a
-- provider that is not known.
pub resolve_selections-IsResolved :
    (selections : Capability → Option Text) → IsResolved selections (resolve_selections selections)
unfolding resolve_selections
resolve_selections-IsResolved selections = elim (resolve_one-cases selections database) [
  | inr (u, e) ↦ rw (e, resolve_selections) (refl, u)
  | inl (ka, a) ↦ elim (resolve_one-cases selections cache) [
    | inr (u, e) ↦ rw (a, e, resolve_selections) (refl, u)
    | inl (kb, b) ↦ elim (resolve_one-cases selections object_storage) [
      | inr (u, e) ↦ rw (a, b, e, resolve_selections) (refl, u)
      | inl (kc, c) ↦ elim (resolve_one-cases selections events) [
        | inr (u, e) ↦ rw (a, b, c, e, resolve_selections) (refl, u)
        | inl (kd, d) ↦ elim (resolve_one-cases selections jobs) [
          | inr (u, e) ↦ rw (a, b, c, d, e, resolve_selections) (refl, u)
          | inl (ke, e) ↦ rw (a, b, c, d, e, resolve_selections) (known selections ka kb kc kd ke)
        ]
      ]
    ]
  ]
]
  where
    known :
        (s : Capability → Option Text)
        → is_provider_name database (or_server (s database) database) ≡ true
        → is_provider_name cache (or_server (s cache) cache) ≡ true
        → is_provider_name object_storage (or_server (s object_storage) object_storage) ≡ true
        → is_provider_name events (or_server (s events) events) ≡ true
        → is_provider_name jobs (or_server (s jobs) jobs) ≡ true
        → IsResolved s (
            ok (record {
              of_database = or_server (s database) database;
              of_cache = or_server (s cache) cache;
              of_object_storage = or_server (s object_storage) object_storage;
              of_events = or_server (s events) events;
              of_jobs = or_server (s jobs) jobs;
            }))
    known s ka kb kc kd ke database = (refl, ka)
    known s ka kb kc kd ke cache = (refl, kb)
    known s ka kb kc kd ke object_storage = (refl, kc)
    known s ka kb kc kd ke events = (refl, kd)
    known s ka kb kc kd ke jobs = (refl, ke)
