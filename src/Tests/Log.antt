-- ===== src/Tests/Log.antt =====
-- A kind of objects that runs: everything that was sent is kept, and the last object under a key counts.
use mathlib.Core.Path.{subst}
use patroni_postgres_operato.Base.{
  ◌≡◌, ◌≢◌, refl, sym, ap, ◌∙◌, Bool, true, Bool-cases, inl, inr, List, [], ◌∷◌, Option, none, some,
  arith, str_eq, eq_iff, eq_refl, if◌then◌else◌, ◌&&◌,
}
use patroni_postgres_operato.Exec.{Outcome, ok, err, not_found}
use patroni_postgres_operato.Kube.{ObjectMeta}
use patroni_postgres_operato.Client.{Kind, NamespacedName}
use patroni_postgres_operato.Client.Stores.{View, Put, Stores, key_of}
use patroni_postgres_operato.Client.Stores.Keeps.{Apart}

abbrev pub key_eq : NamespacedName → NamespacedName → Bool
key_eq a b = str_eq a.namespace b.namespace && str_eq a.name b.name

key_eq-true : (a b : NamespacedName) → key_eq a b ≡ true → a ≡ b
key_eq-true a b h = ground (arith, eq_iff a.namespace b.namespace, eq_iff a.name b.name, h)

key_eq_refl : (a : NamespacedName) → key_eq a a ≡ true
key_eq_refl a = ground (arith, eq_refl a.namespace, eq_refl a.name)

found_back : {A : Type 0} {a b : A} → some a ≡ some b → b ≡ a
found_back h = ground (arith, h)

module _ {A : Type 0} (meta : A → ObjectMeta) where
  abbrev pub first : NamespacedName → List A → Option A
  first n [] = none
  first n (a ∷ rest) = if key_eq (key_of (meta a)) n then some a else first n rest

  pub first-key :
      (n : NamespacedName) (l : List A) (a : A) → first n l ≡ some a → key_of (meta a) ≡ n
  first-key n [] a h = absurd (ground (arith, h))
  first-key n (b ∷ rest) a h = elim (Bool-cases (key_eq (key_of (meta b)) n)) [
    | inl e ↦
        ap (λ (x : A). key_of (meta x)) (found_back (rw e at h)) ∙ key_eq-true (key_of (meta b)) n e
    | inr e ↦ first-key n rest a (rw e at h)
  ]

  pub first-here :
      (b : A) (n : NamespacedName) (l : List A) → key_of (meta b) ≡ n → first n (b ∷ l) ≡ some b
  first-here b n l e = rw (ap (λ k. key_eq k n) e ∙ key_eq_refl n) refl

  pub first-else :
      (b : A) (n : NamespacedName) (l : List A) → n ≢ key_of (meta b) → first n (b ∷ l) ≡ first n l
  first-else b n l ne = elim (Bool-cases (key_eq (key_of (meta b)) n)) [
    | inl e ↦ absurd (ne (sym (key_eq-true (key_of (meta b)) n e)))
    | inr e ↦ rw e refl
  ]

abbrev answer : {A : Type 0} → Option A → Outcome A
answer none = err not_found
answer (some a) = ok a

sent_back : {A : Type 0} {a b : A} → ok a ≡ ok b → b ≡ a
sent_back h = ground (arith, h)

answer-some : {A : Type 0} (o : Option A) (a : A) → answer o ≡ ok a → o ≡ some a
answer-some none a h = absurd (ground (arith, h))
answer-some (some b) a h = ground (arith, h)

answer-none : {A : Type 0} (o : Option A) → answer o ≡ err not_found → o ≡ none
answer-none none h = refl
answer-none (some b) h = absurd (ground (arith, h))

module _ {W A : Type 0} (meta : A → ObjectMeta) where
  -- What the server makes of an object, by what it has under its key.
  module _ (fill : Option A → A → A) (get : W → List A) (set : List A → W → W) where
    abbrev put : A → W → Outcome A × W
    put a w = let b = fill (first meta (key_of (meta a)) (get w)) a in (ok b, set (b ∷ get w) w)

    abbrev pub logged : Kind W A
    logged = record {
      get = λ n w. (answer (first meta n (get w)), w);
      create = put;
      update = put;
      delete = λ a d w. (ok tt, w);
    }

    abbrev pub contents : View W A
    contents w n = first meta n (get w)

    pub logged-Apart :
        {B : Type 0} (view : View W B)
        → ((l : List A) (w : W) (j : NamespacedName) → view (set l w) j ≡ view w j)
        → Apart view logged
    logged-Apart view h = record {
      get = λ n w j. refl;
      create = λ a w j. h _ w j;
      update = λ a w j. h _ w j;
    }

    module _ {Fills : A → A → Type 0} (get-set : (l : List A) (w : W) → get (set l w) ≡ l)
        (fills : (o : Option A) (a : A) → Fills a (fill o a))
        (Fills-meta : (a b : A) → Fills a b → meta b ≡ meta a)
        (fill_same : (a x : A) → Fills a x → fill (some x) a ≡ x) where
      put-Put :
          (a b : A) (w : W)
          → (put a w).0 ≡ ok b
          → Fills a b × Put contents (key_of (meta a)) b w (put a w).1
      put-Put a b w h =
          let o = first meta (key_of (meta a)) (get w) in
          let e : fill o a ≡ b = ground (arith, h) in
          let f = subst (Fills a) e (fills o a) in
          let k = ap key_of (Fills-meta a (fill o a) (fills o a)) in
          let now = λ (j : NamespacedName). ap (first meta j) (get-set (fill o a ∷ get w) w) in
          (
            f,
            (
              now (key_of (meta a))
                  ∙ first-here meta (fill o a) (key_of (meta a)) (get w) k
                  ∙ ap some e,
              λ j ne. now j ∙ first-else meta (fill o a) j (get w) (λ q. ne (q ∙ k)),
            ),
          )

      pub logged-Stores : Stores meta Fills contents logged
      logged-Stores = record {
        Fills-meta = Fills-meta;
        keyed = λ n a w h. first-key meta n (get w) a h;
        get_some = λ n a w h. (answer-some _ a h, λ j. refl);
        get_none = λ n w h. (answer-none _ h, λ j. refl);
        create_put = put-Put;
        update_put = put-Put;
        update_same = λ a x b w v f h. sent_back h ∙ ap (λ o. fill o a) v ∙ fill_same a x f;
      }
