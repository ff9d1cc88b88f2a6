-- ===== src/Controllers/Secret/Length.antt =====
-- How long the passwords are.
use Prim.Native.String.{len}
use text.Mathlib.TextPositions.{len-append}
use patroni_postgres_operato.Base.{
  ◌≡◌, refl, ap, ◌∙◌, sym, ℕ, suc, zero, String, ◌<>◌, ◌+◌, ◌*◌, ◌/◌, ◌%◌, ◌<◌, List, [], ◌∷◌,
  Option, none, some, get_elem?, length, arith, All, Bool, true, ◌==◌, ◌&&◌,
}
use patroni_postgres_operato.Exec.{Exec, ok, pure, ◌>>=◌}
use patroni_postgres_operato.Exec.Inversion.{bind-ok}
use patroni_postgres_operato.Client.{Client, State, find, request}
use patroni_postgres_operato.Kube.{ObjectMeta, named, Secret}
use patroni_postgres_operato.Context.{set_meta}
use patroni_postgres_operato.Controllers.Secret.{
  alphabet, sextet, encode_to_string, gen_secret, name, reconcile, super_user_password_key,
  replication_user_password_key,
}

-- Every element is one letter.
abbrev one_letter : List String → Bool
one_letter [] = true
one_letter (c ∷ rest) = (len c == 1) && one_letter rest

abbrev letter_or_empty : Option String → String
letter_or_empty o = elim o [ none ↦ "" | some c ↦ c ]

letter_at :
    (l : List String) (n : ℕ)
    → one_letter l ≡ true
    → n < length l
    → len (letter_or_empty (get_elem? l n)) ≡ 1
letter_at [] n h lt = absurd (omega arith)
letter_at (c ∷ rest) zero h lt = ground (arith, h)
letter_at (c ∷ rest) (suc n) h lt = letter_at rest n (ground (arith, h)) (omega arith)

sextet-len : (n : ℕ) → n < 64 → len (sextet n) ≡ 1
sextet-len n lt = letter_at alphabet n refl lt

abbrev pub IsByte : ℕ → Type 0
IsByte n = n < 256

two_letters :
    (a b : ℕ) (rest : String)
    → a < 64
    → b < 64
    → len (sextet a <> (sextet b <> rest)) ≡ 2 + len rest
two_letters a b rest la lb = ground (
  arith,
  len-append (sextet a) (sextet b <> rest),
  len-append (sextet b) rest,
  sextet-len a la,
  sextet-len b lb,
)

four_letters :
    (a b d : ℕ) (rest : String)
    → a < 64
    → b < 64
    → d < 64
    → (e : ℕ) → e < 64
    → len (sextet a <> (sextet b <> (sextet d <> (sextet e <> rest)))) ≡ 4 + len rest
four_letters a b d rest la lb ld e le = ground (
  arith,
  len-append (sextet a) (sextet b <> (sextet d <> (sextet e <> rest))),
  len-append (sextet b) (sextet d <> (sextet e <> rest)),
  len-append (sextet d) (sextet e <> rest),
  len-append (sextet e) rest,
  sextet-len a la,
  sextet-len b lb,
  sextet-len d ld,
  sextet-len e le,
)

-- Every three bytes, or what is left of three, are four letters.
pub encode_to_string-len :
    (bytes : List ℕ)
    → All IsByte bytes
    → len (encode_to_string bytes) ≡ 4 * ((length bytes + 2) / 3)
unfolding encode_to_string
encode_to_string-len [] h = refl
encode_to_string-len (a ∷ []) (la, _) =
    two_letters (a / 4) (a % 4 * 16) "==" (omega arith) (omega arith)
encode_to_string-len (a ∷ b ∷ []) (la, (lb, _)) =
    len-append (sextet (a / 4)) _
    ∙ ap (λ n. n + len (sextet (a % 4 * 16 + b / 16) <> (sextet (b % 16 * 4) <> "=")))
        (sextet-len (a / 4) (omega arith))
    ∙ ap (λ n. 1 + n)
        (two_letters (a % 4 * 16 + b / 16) (b % 16 * 4) "=" (omega arith) (omega arith))
encode_to_string-len (a ∷ b ∷ d ∷ rest) (la, (lb, (ld, h))) =
    four_letters (a / 4) (a % 4 * 16 + b / 16) (b % 16 * 4 + d / 64) (encode_to_string rest)
      (omega arith) (omega arith) (omega arith) (d % 64) (omega arith)
    ∙ ap (λ n. 4 + n) (encode_to_string-len rest h)
    ∙ omega arith

-- What crypto/rand documents: the buffer is filled with bytes.
abbrev pub Fills : Client → Type 0
Fills c = (n : ℕ) (w : c.World) → (length (c.random n w).0 ≡ n) × All IsByte (c.random n w).0

module _ (c : Client) where
  abbrev pub created : String → String → ObjectMeta → Secret
  created a b m = record {
    meta = m;
    string_data = (super_user_password_key, a) ∷ (replication_user_password_key, b) ∷ [];
  }

  abbrev sending : String → String → ObjectMeta → Exec (State c.World) (Unit {0})
  sending a b m = request (c.secrets.create (created a b m)) >>= λ _. pure (tt {0})

  abbrev second : ObjectMeta → String → Exec (State c.World) (Unit {0})
  second n a = gen_secret c >>= λ b. set_meta c n >>= sending a b

module _ (c : Client) (fills : Fills c) where
  gen_secret-len : (s : State c.World) (t : String) → (gen_secret c s).0 ≡ ok t → len t ≡ 64
  unfolding gen_secret request pure
  gen_secret-len s t h =
      let (l, b) = fills 48 s.world in
      let bytes = (c.random 48 s.world).0 in
      let e : encode_to_string bytes ≡ t = ground (arith, h) in
      ap len (sym e) ∙ encode_to_string-len bytes b ∙ ap (λ n. 4 * ((n + 2) / 3)) l

  -- When there was no secret, and the reconciliation has succeeded, the last request created one
  -- whose two passwords have 64 letters each.
  pub reconcile-len :
      (s : State c.World)
      → (find c.secrets (record { namespace = s.instance.namespace; name = name s.instance }) s).0
        ≡ ok none
      → (reconcile c s).0 ≡ ok tt
      → (a b : String) × (m : ObjectMeta) × (w : c.World) × ((reconcile c s).1.world
          ≡ (c.secrets.create (created c a b m) w).1)
        × (len a ≡ 64)
        × (len b ≡ 64)
  unfolding reconcile request pure
  reconcile-len s f h =
      let n = named (name s.instance) in
      let t0 =
        (find c.secrets (record { namespace = s.instance.namespace; name = name s.instance })
          s).1 in
      let e0 : reconcile c s ≡ (gen_secret c >>= second c n) t0 = ground (arith, f) in
      let (a, g1, e1) = bind-ok (gen_secret c) (second c n) t0 tt (sym (ap (λ x. x.0) e0) ∙ h) in
      let t1 = (gen_secret c t0).1 in
      let (b, g2, e2) =
        bind-ok (gen_secret c) (λ b. set_meta c n >>= sending c a b) t1 tt
          (sym (ap (λ x. x.0) (e0 ∙ e1)) ∙ h) in
      let t2 = (gen_secret c t1).1 in
      let (m, g3, e3) =
        bind-ok (set_meta c n) (sending c a b) t2 tt (sym (ap (λ x. x.0) (e0 ∙ e1 ∙ e2)) ∙ h) in
      let t3 = (set_meta c n t2).1 in
      let (_, g4, e4) =
        bind-ok (request (c.secrets.create (created c a b m))) (λ _. pure (tt {0})) t3 tt
          (sym (ap (λ x. x.0) (e0 ∙ e1 ∙ e2 ∙ e3)) ∙ h) in
      (
        a,
        b,
        m,
        t3.world,
        ap (λ x. x.1.world) (e0 ∙ e1 ∙ e2 ∙ e3 ∙ e4),
        gen_secret-len t0 a g1,
        gen_secret-len t1 b g2,
      )
