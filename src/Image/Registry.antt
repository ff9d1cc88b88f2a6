-- ===== src/Image/Registry.antt =====
-- What the registry holds, for any list of images and for the one that the operator is built with.
use patroni_postgres_operato.Base.{
  ℕ, ◌<◌, List, [], ◌∷◌, Option, none, some, ◌≡◌, refl, ◌≢◌, inl, inr, arith, ltb, ltb→lt,
  Bool-cases, ◌==◌, if◌then◌else◌, select, contains, Bool, true,
}
use patroni_postgres_operato.Image.{
  Image, upgrade_versions, images, Registry, find_image, assign, register_versions, register,
  get_image,
}

pub contains-select :
    (p : ℕ → Bool) (v : ℕ) (ws : List ℕ)
    → contains (select p ws) v ≡ true
    → (p v ≡ true) × (contains ws v ≡ true)
contains-select p v [] h = ground arith
contains-select p v (w ∷ ws) h = elim (Bool-cases (p w)) [
  | inl e ↦ ground (arith, contains-select p v ws)
  | inr e ↦ ground (arith, contains-select p v ws)
]

find_image-assign :
    (v w : ℕ) (i : Image) (r : Registry)
    → find_image w (assign v i r) ≡ (if v == w then some i else find_image w r)
unfolding find_image assign
find_image-assign v w i [] = refl
find_image-assign v w i ((k, j) ∷ r) = ground (arith, find_image-assign v w i r)

find_image-register_versions :
    (w : ℕ) (i : Image) (vs : List ℕ) (r : Registry)
    → find_image w (register_versions i vs r) ≡ (if contains vs w then some i else find_image w r)
unfolding register_versions
find_image-register_versions w i [] r = refl
find_image-register_versions w i (v ∷ vs) r =
    ground (arith, find_image-register_versions w i vs (assign v i r), find_image-assign v w i r)

-- The newest image of a list that runs a version, the older images being first.
abbrev pub newest : ℕ → List Image → Option Image → Option Image
newest v [] found = found
newest v (i ∷ is) found = newest v is (if contains i.versions v then some i else found)

-- A version is looked up to the last listed image that runs it.
pub find_image-register :
    (v : ℕ) (is : List Image) (r : Registry)
    → find_image v (register is r) ≡ newest v is (find_image v r)
unfolding register
find_image-register v [] r = refl
find_image-register v (i ∷ is) r =
    rw (find_image-register v is, find_image-register_versions v i i.versions r)

newest-contains :
    (v : ℕ) (is : List Image) (f : Option Image) (i : Image)
    → newest v is f ≡ some i
    → (f ≡ some i → contains i.versions v ≡ true)
    → contains i.versions v ≡ true
newest-contains v [] f i h k = k h
newest-contains v (j ∷ is) f i h k =
    newest-contains v is (if contains j.versions v then some j else f) i h (λ e. ground arith)

newest-ne-none :
    (v t : ℕ) (is : List Image) (f g : Option Image) (i : Image)
    → newest v is f ≡ some i
    → contains i.versions t ≡ true
    → (f ≡ some i → g ≢ none)
    → newest t is g ≢ none
newest-ne-none v t [] f g i h c k = k h
newest-ne-none v t (j ∷ is) f g i h c k =
    newest-ne-none v t is (if contains j.versions v then some j else f)
      (if contains j.versions t then some j else g) i h c (λ e. ground arith)

get_image-newest : (v : ℕ) → get_image v ≡ newest v images none
unfolding get_image
get_image-newest v = find_image-register v images []

get_image-contains : (v : ℕ) (i : Image) → get_image v ≡ some i → contains i.versions v ≡ true
get_image-contains v i h = newest-contains v images none i (rw get_image-newest at h) (λ e. cc)

get_image-ne-none :
    (v t : ℕ) (i : Image) → get_image v ≡ some i → contains i.versions t ≡ true → get_image t ≢ none
get_image-ne-none v t i h c =
    rw get_image-newest
      (newest-ne-none v t images none none i (rw get_image-newest at h) c (λ e. cc))

-- Every version that is offered as an upgrade is newer than the current one and is run by the image
-- of the current version, so that image has the programs of both; and it is a supported version.
pub upgrade_versions_sound :
    (version target : ℕ) (i : Image)
    → get_image version ≡ some i
    → contains (upgrade_versions i version) target ≡ true
    → (version < target)
      × (contains i.versions version ≡ true)
      × (contains i.versions target ≡ true)
      × (get_image target ≢ none)
unfolding upgrade_versions
upgrade_versions_sound version target i h k =
    let offered = contains-select (λ v. ltb version v) target i.versions k in
    (
      ltb→lt version target offered.0,
      get_image-contains version i h,
      offered.1,
      get_image-ne-none version target i h offered.1,
    )
