-- ===== src/Api/Docs.antt =====
-- internal/api/docs.go: the handler of GET /openapi.yaml. `read_file` is os.ReadFile, `none` an error.
use lewly_pgpyewj.Prelude.{ℕ, Option, none, some, List, [], ◌∷◌}
use lewly_pgpyewj.Prelude.Codes.{Bytes, codes}

abbrev pub possible_paths : List Bytes
possible_paths =
    codes "/docs/openapi.yaml"
    ∷ codes "docs/openapi.yaml"
    ∷ codes "./docs/openapi.yaml"
    ∷ codes "docs/openapi.yaml"
    ∷ []

module _ (read_file : Bytes → Option Bytes) where
  abbrev read_or : Bytes → Option (Bytes × Bytes) → Option Bytes → Option (Bytes × Bytes)
  read_or path rest none = rest
  read_or path rest (some content) = some (path, content)

  -- the loop: the first path that can be read, and its content
  unfoldable pub first_readable : List Bytes → Option (Bytes × Bytes)
  first_readable [] = none
  first_readable (path ∷ paths) =
      let rest = first_readable paths in read_or path rest (read_file path)

  abbrev answer : Option (Bytes × Bytes) → ℕ × Option (Bytes × Bytes)
  answer none = (404, none)
  answer (some served) = (200, some served)

  -- the status, the header X-Served-From and the body
  unfoldable pub openapi : ℕ × Option (Bytes × Bytes)
  openapi = answer (first_readable possible_paths)
