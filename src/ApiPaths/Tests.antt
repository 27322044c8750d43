-- ===== src/ApiPaths/Tests.antt =====
-- Two paths that are accepted, and a third that one of them covers.
use podokit.Base.{
  same, ◌≤◌, ◌≡◌, refl, some, List, [], ◌∷◌, ◌++◌, map, codes, length, All, ok, Text, nat_eq,
  text_eq,
}
use podokit.ApiPaths.{api_path_base, parse_api_paths, parse_list, merge_api_paths}
use podokit.ApiPaths.Parsed.{IsRoute, covering, parse_api_paths-IsRoute}
use podokit.ApiPaths.Merged.{IsHandled, IsAccepted, merge_api_paths-IsAccepted}

abbrev api_paths : List Text
api_paths = codes "/api/files/" ∷ codes "/api/events" ∷ []

abbrev sockets : List Text
sockets = codes "/api/ws" ∷ []

accepted : parse_api_paths sockets (some (map some api_paths)) ≡ ok api_paths
unfolding parse_api_paths same api_path_base
accepted = refl

accepted_list : parse_list api_paths ≡ ok api_paths
unfolding parse_list same api_path_base
accepted_list = refl

parse_api_paths-IsRoute_example :
    (some (map some api_paths) ≡ some (map some api_paths))
    × (length api_paths ≤ 32)
    × All (IsRoute sockets) api_paths
    × ((path : Text) → length (covering path api_paths) ≤ 1)
parse_api_paths-IsRoute_example =
    parse_api_paths-IsRoute sockets (some (map some api_paths)) api_paths accepted

merge_api_paths-IsAccepted_example :
    let additions : List Text =
      codes "/api/files/uploads" ∷ codes "/api/auth/x" ∷ codes "/api/new" ∷ [] in
    let merged = merge_api_paths api_paths additions parse_list in
    IsAccepted parse_list merged.paths
    × (merged.paths ≡ api_paths ++ merged.added)
    × All (IsHandled merged) additions
merge_api_paths-IsAccepted_example =
    merge_api_paths-IsAccepted parse_list api_paths
      (codes "/api/files/uploads" ∷ codes "/api/auth/x" ∷ codes "/api/new" ∷ [])
      (api_paths, accepted_list)
