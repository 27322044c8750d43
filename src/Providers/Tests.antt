-- ===== src/Providers/Tests.antt =====
-- The selection of a local database.
use podokit.Base.{
  ◌≡◌, refl, false, Option, none, some, codes, ok, list_beq, Text, same, nat_eq, text_eq,
}
use podokit.Providers.{
  Capability, database, provider_names, server_selections, is_provider_name, resolve_one,
  resolve_selections, is_provider_capability, capability_name,
}
use podokit.Providers.Resolved.{IsResolved, resolve_selections-IsResolved}

providers : Unit {0}
unfolding provider_names server_selections is_provider_name resolve_one resolve_selections
    is_provider_capability capability_name same list_beq
providers = tt

abbrev sqlite : Capability → Option Text
sqlite database = some (codes "sqlite")
sqlite _ = none

resolve_selections-IsResolved_example : IsResolved sqlite (resolve_selections sqlite)
resolve_selections-IsResolved_example = resolve_selections-IsResolved sqlite

sqlite_resolved :
    resolve_selections sqlite
    ≡ ok (record {
      of_database = codes "sqlite";
      of_cache = codes "redis";
      of_object_storage = codes "s3";
      of_events = codes "redis";
      of_jobs = codes "bullmq";
    })
unfolding providers
sqlite_resolved = refl

no_capability : is_provider_capability (codes "mail") ≡ false
unfolding providers
no_capability = refl
