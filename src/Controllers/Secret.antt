-- ===== src/Controllers/Secret.antt =====
-- private/controllers/secret/secret.go: the passwords, generated once.
pub mod Kept
pub mod Length
use patroni_postgres_operato.Base.{
  ℕ, String, ◌<>◌, ◌+◌, ◌*◌, ◌/◌, ◌%◌, List, [], ◌∷◌, none, some, get_elem?,
}
use patroni_postgres_operato.Exec.{ok, Exec, pure, ◌>>=◌}
use patroni_postgres_operato.Kube.{StringDict, named}
use patroni_postgres_operato.Api.{PatroniPostgres}
use patroni_postgres_operato.Client.{Client, State, request, find, the_instance}
use patroni_postgres_operato.Context.{set_meta}

abbrev pub super_user_password_key : String
super_user_password_key = "superuser-password"

abbrev pub replication_user_password_key : String
replication_user_password_key = "replication-password"

unfoldable pub name : PatroniPostgres → String
name p = p.name

-- The standard alphabet of base64.
abbrev pub alphabet : List String
alphabet =
    "A" ∷ "B" ∷ "C" ∷ "D" ∷ "E" ∷ "F" ∷ "G" ∷ "H" ∷ "I" ∷ "J" ∷ "K" ∷ "L" ∷ "M" ∷ "N" ∷ "O" ∷ "P"
    ∷ "Q" ∷ "R" ∷ "S" ∷ "T" ∷ "U" ∷ "V" ∷ "W" ∷ "X" ∷ "Y" ∷ "Z" ∷ "a" ∷ "b" ∷ "c" ∷ "d" ∷ "e" ∷ "f"
    ∷ "g" ∷ "h" ∷ "i" ∷ "j" ∷ "k" ∷ "l" ∷ "m" ∷ "n" ∷ "o" ∷ "p" ∷ "q" ∷ "r" ∷ "s" ∷ "t" ∷ "u" ∷ "v"
    ∷ "w" ∷ "x" ∷ "y" ∷ "z" ∷ "0" ∷ "1" ∷ "2" ∷ "3" ∷ "4" ∷ "5" ∷ "6" ∷ "7" ∷ "8" ∷ "9" ∷ "+" ∷ "/"
    ∷ []

abbrev sextet : ℕ → String
sextet n = elim (get_elem? alphabet n) [ none ↦ "" | some c ↦ c ]

-- base64.StdEncoding.EncodeToString
unfoldable pub encode_to_string : List ℕ → String
encode_to_string [] = ""
encode_to_string (a ∷ []) = sextet (a / 4) <> (sextet (a % 4 * 16) <> "==")
encode_to_string (a ∷ b ∷ []) =
    sextet (a / 4) <> (sextet (a % 4 * 16 + b / 16) <> (sextet (b % 16 * 4) <> "="))
encode_to_string (a ∷ b ∷ d ∷ rest) =
    sextet (a / 4)
    <> (sextet (a % 4 * 16 + b / 16)
        <> (sextet (b % 16 * 4 + d / 64) <> (sextet (d % 64) <> encode_to_string rest)))

module _ (c : Client) where
  unfoldable pub gen_secret : Exec (State c.World) String
  unfolding ◌>>=◌ request
  gen_secret = do
    key ← request (λ w. let (bytes, w') = c.random 48 w in (ok bytes, w'))
    pure (encode_to_string key)

  unfoldable pub reconcile : Exec (State c.World) (Unit {0})
  unfolding gen_secret find the_instance set_meta name
  reconcile = do
    p ← the_instance
    o ← find c.secrets (record { namespace = p.namespace; name = name p })
    elim o [
      | some s ↦ elim s.meta.owners [
        | [] ↦ do
          m ← set_meta c s.meta
          _ ← request (c.secrets.update (record s { meta = m }))
          pure tt
        | _ ∷ _ ↦ pure tt
      ]
      | none ↦ do
        a ← gen_secret
        b ← gen_secret
        let passwords : StringDict =
            (super_user_password_key, a) ∷ (replication_user_password_key, b) ∷ []
        m ← set_meta c (named (name p))
        _ ← request (c.secrets.create (record { meta = m; string_data = passwords }))
        pure tt
    ]
