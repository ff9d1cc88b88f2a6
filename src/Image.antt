-- ===== src/Image.antt =====
-- private/image/image.go and registry.go: the database images and the versions that each one runs.
pub mod Registry
use patroni_postgres_operato.Base.{
  ℕ, String, List, [], ◌∷◌, Option, none, some, ltb, ◌==◌, if◌then◌else◌, select,
}

pub record Image : Type 0 where
  pub image : String
  pub versions : List ℕ

unfoldable pub upgrade_versions : Image → ℕ → List ℕ
upgrade_versions i version = select (λ v. ltb version v) i.versions

abbrev pub images : List Image
images =
    record { image = "ghcr.io/rkojedzinszky/postgres-patroni:20251017"; versions = 13 ∷ 15 ∷ [] }
    ∷ record { image = "ghcr.io/rkojedzinszky/postgres-patroni:20260707"; versions = 15 ∷ 17 ∷ [] }
    ∷ []

-- `map[int]Image`: an assignment replaces what the key had.
abbrev pub Registry : Type 0
Registry = List (ℕ × Image)

unfoldable pub find_image : ℕ → Registry → Option Image
find_image v [] = none
find_image v ((k, i) ∷ r) = if k == v then some i else find_image v r

unfoldable pub assign : ℕ → Image → Registry → Registry
assign v i [] = (v, i) ∷ []
assign v i ((k, j) ∷ r) = if k == v then (v, i) ∷ r else (k, j) ∷ assign v i r

unfoldable pub register_versions : Image → List ℕ → Registry → Registry
unfolding assign
register_versions img [] r = r
register_versions img (v ∷ vs) r = register_versions img vs (assign v img r)

-- The loops of `init`.
unfoldable pub register : List Image → Registry → Registry
unfolding register_versions
register [] r = r
register (img ∷ imgs) r = register imgs (register_versions img img.versions r)

unfoldable pub get_image : ℕ → Option Image
unfolding register find_image
get_image version = find_image version (register images [])
