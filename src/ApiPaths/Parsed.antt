-- ===== src/ApiPaths/Parsed.antt =====
-- api-paths.ts: the lists of paths that `parseApiPaths` accepts.
use podokit.Base.{
  refl, ap, sym, Ensures-weaken, ◌≤◌, ◌≡◌, refl, sym, ap, ◌∙◌, inl, inr, Bool, true, false, Option,
  none, some, List, [], ◌∷◌, ◌++◌, map, append-nil, append_assoc, arith, ltb, lt→ltb, Bool-cases,
  Option-cases, codes, length, keep_if, All, All-append, ok, Ensures, Ensures-bind, Ensures-ok,
  Text, nat_eq, text_eq,
}
use podokit.ApiPaths.{
  api_path_base, covers, find, is_valid_path, overlap, check_path, parse_paths, parse_api_paths,
}
use podokit.Texts.Unions.{map-append}
use podokit.ApiPaths.Covers.{covers-either}

-- A path that may reach the API directly.
abbrev pub IsRoute : List Text → Text → Type 0
IsRoute web_socket_paths path =
    (is_valid_path path ≡ true)
    × (covers (codes "/api/auth") (api_path_base path) ≡ false)
    × All (λ socket. covers (api_path_base path) socket ≡ false) web_socket_paths

abbrev AreApart : List Text → Type 0
AreApart [] = Unit
AreApart (path ∷ paths) = All (λ other. overlap path other ≡ false) paths × AreApart paths

AreApart-append :
    (paths : List Text) (path : Text)
    → AreApart paths
    → All (λ other. overlap path other ≡ false) paths
    → AreApart (paths ++ (path ∷ []))
AreApart-append [] path h k = (tt, tt)
AreApart-append (first ∷ paths) path h k = (
  All-append _ paths (path ∷ []) h.0 (ground (arith, k.0), tt),
  AreApart-append paths path h.1 k.1,
)

find-none {ℓ} :
    {A : Type ℓ} (p : A → Bool) (xs : List A) → find p xs ≡ none → All (λ x. p x ≡ false) xs
unfolding find
find-none p [] h = tt
find-none p (x ∷ xs) h = elim (Bool-cases (p x)) [
  | inl e ↦ absurd (ground (arith, e, h))
  | inr e ↦ (e, find-none p xs (rw e at h))
]

-- The entries that cover a path.
abbrev pub covering : Text → List Text → List Text
covering path paths = keep_if (λ entry. covers (api_path_base entry) path) paths

covering-none :
    (path first : Text) (paths : List Text)
    → covers (api_path_base first) path ≡ true
    → All (λ other. overlap first other ≡ false) paths
    → covering path paths ≡ []
unfolding keep_if
covering-none path first [] c h = refl
covering-none path first (other ∷ paths) c h =
    let rest = covering-none path first paths c h.1 in
    let either = covers-either (api_path_base first) (api_path_base other) path c in
    let outside : covers (api_path_base other) path ≡ false = ground (arith, h.0, either) in
    rw outside rest

covering-one : (path : Text) (paths : List Text) → AreApart paths → length (covering path paths) ≤ 1
unfolding keep_if
covering-one path [] h = omega arith
covering-one path (first ∷ paths) h = elim (Bool-cases (covers (api_path_base first) path)) [
  | inl e ↦ rw (e, covering-none path first paths e h.0) (omega arith)
  | inr e ↦ rw e (covering-one path paths h.1)
]

length-map-some : (paths : List Text) → length (map some paths) ≡ length paths
length-map-some [] = refl
length-map-some (path ∷ paths) = ground (arith, length-map-some paths)

shift :
    (paths : List Text) (path : Text) (values : List (Option Text))
    → map some (paths ++ (path ∷ [])) ++ values ≡ map some paths ++ (some path ∷ values)
shift paths path values =
    ap (λ front. front ++ values) (map-append some paths (path ∷ []))
    ∙ append_assoc (map some paths) (some path ∷ []) values

module _ (web_socket_paths : List Text) where
  check_path-IsRoute :
      (paths : List Text) (path : Text)
      → Ensures
          (λ checked.
            IsRoute web_socket_paths path × All (λ other. overlap path other ≡ false) paths)
          (check_path web_socket_paths paths path)
  unfolding check_path
  check_path-IsRoute paths path = elim (Bool-cases (is_valid_path path)) [
    | inr e ↦ rw e tt
    | inl valid ↦ elim (Bool-cases (covers (codes "/api/auth") (api_path_base path))) [
      | inl e ↦ rw (valid, e) tt
      | inr auth ↦ elim (Option-cases (find (overlap path) paths)) [
        | inr (other, e) ↦ rw (valid, auth, e) tt
        | inl apart ↦ elim (Option-cases (find (covers (api_path_base path)) web_socket_paths)) [
          | inr (socket, e) ↦ rw (valid, auth, apart, e) tt
          | inl sockets ↦
              rw (valid, auth, apart, sockets)
                (
                  (refl, refl, find-none (covers (api_path_base path)) web_socket_paths sockets),
                  find-none (overlap path) paths apart,
                )
        ]
      ]
    ]
  ]

  abbrev AreRoutes : List Text → Type 0
  AreRoutes paths = All (IsRoute web_socket_paths) paths × AreApart paths

  parse_paths-AreRoutes :
      (paths : List Text) (values : List (Option Text))
      → AreRoutes paths
      → Ensures
          (λ result. AreRoutes result × (map some result ≡ map some paths ++ values))
          (parse_paths web_socket_paths paths values)
  unfolding parse_paths
  parse_paths-AreRoutes paths [] h = (h, sym (append-nil (map some paths)))
  parse_paths-AreRoutes paths (none ∷ values) h = tt
  parse_paths-AreRoutes paths (some path ∷ values) h =
      Ensures-bind _ _ (check_path web_socket_paths paths path) _ (check_path-IsRoute paths path)
        (λ checked route.
          Ensures-weaken
            (λ result.
              AreRoutes result × (map some result ≡ map some (paths ++ (path ∷ [])) ++ values))
            _ _ (λ result r. (r.0, r.1 ∙ shift paths path values))
            (parse_paths-AreRoutes (paths ++ (path ∷ [])) values (
              All-append _ paths (path ∷ []) h.0 (route.0, tt),
              AreApart-append paths path h.1 route.1,
            )))

  -- A list that `parseApiPaths` accepts is given back as it is: at most 32 paths, each a static prefix
  -- under /api/ but not under /api/auth, none of which covers a path of a WebSocket; and every path is
  -- covered by at most one of them.
  pub parse_api_paths-IsRoute :
      (value : Option (List (Option Text))) (paths : List Text)
      → parse_api_paths web_socket_paths value ≡ ok paths
      → (value ≡ some (map some paths))
        × (length paths ≤ 32)
        × All (IsRoute web_socket_paths) paths
        × ((path : Text) → length (covering path paths) ≤ 1)
  unfolding parse_api_paths
  parse_api_paths-IsRoute none paths h = absurd (ground arith)
  parse_api_paths-IsRoute (some values) paths h = elim (Bool-cases (ltb 32 (length values))) [
    | inl e ↦ absurd (ground (arith, h, e))
    | inr e ↦
        let parsed : parse_paths web_socket_paths [] values ≡ ok paths = rw e at h in
        let result = Ensures-ok _ _ (parse_paths-AreRoutes [] values (tt, tt)) parsed in
        let count = ap length result.1 in
        (
          ap some (sym result.1),
          ground (arith, e, lt→ltb 32 (length values), length-map-some paths, count),
          result.0.0,
          λ path. covering-one path paths result.0.1,
        )
  ]
