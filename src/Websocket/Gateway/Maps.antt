-- ===== src/Websocket/Gateway/Maps.antt =====
-- How many entries a dictionary with distinct keys has.
use wsgateway.Prelude.{
  suc, ◌≡◌, refl, inl, inr, false, List, [], ◌∷◌, none, some, arith, length, Eq, lookup, insert,
  erase, lookup-insert, lookup-erase, Bool-cases,
}

module _ {ℓ κ} {K : Type ℓ} ⦃e : Eq K⦄ {V : Type κ} where
  abbrev pub Unique : List (K × V) → Type κ
  Unique [] = Unit
  Unique ((k, v) ∷ m) = (lookup k m ≡ none) × Unique m

  pub length-insert_new :
      (k : K) (v : V) (m : List (K × V))
      → lookup k m ≡ none
      → length (insert k v m) ≡ suc (length m)
  unfolding lookup insert
  length-insert_new k v [] h = refl
  length-insert_new k v ((j, w) ∷ m) h = ground (arith, length-insert_new k v m)

  pub length-insert_old :
      (k : K) (v w : V) (m : List (K × V)) → lookup k m ≡ some w → length (insert k v m) ≡ length m
  unfolding lookup insert
  length-insert_old k v w [] h = absurd (cc)
  length-insert_old k v w ((j, u) ∷ m) h = ground (arith, length-insert_old k v w m)

  pub insert-Unique : (k : K) (v : V) (m : List (K × V)) → Unique m → Unique (insert k v m)
  unfolding insert lookup
  insert-Unique k v [] u = (refl, tt)
  insert-Unique k v ((j, w) ∷ m) u = elim (Bool-cases (e.beq j k)) [
    | inl hit ↦ rw hit (u.0, u.1)
    | inr miss ↦ rw miss (new miss, insert-Unique k v m u.1)
  ]
    where
      new : e.beq j k ≡ false → lookup j (insert k v m) ≡ none
      new miss = ground (arith, lookup-insert k j v m, e.beq_eq k j, e.beq_refl j)

  pub erase_missing : (k : K) (m : List (K × V)) → lookup k m ≡ none → erase k m ≡ m
  unfolding lookup erase
  erase_missing k [] h = refl
  erase_missing k ((j, w) ∷ m) h = ground (arith, erase_missing k m)

  pub length-erase :
      (k : K) (w : V) (m : List (K × V))
      → Unique m
      → lookup k m ≡ some w
      → suc (length (erase k m)) ≡ length m
  unfolding lookup erase
  length-erase k w [] u h = absurd (cc)
  length-erase k w ((j, v) ∷ m) u h = elim (Bool-cases (e.beq j k)) [
    | inl hit ↦ ground (arith, erase_missing k m, e.beq_eq j k)
    | inr miss ↦ ground (arith, length-erase k w m u.1)
  ]

  pub erase-Unique : (k : K) (m : List (K × V)) → Unique m → Unique (erase k m)
  unfolding erase
  erase-Unique k [] u = tt
  erase-Unique k ((j, w) ∷ m) u = elim (Bool-cases (e.beq j k)) [
    | inl hit ↦ rw hit (erase-Unique k m u.1)
    | inr miss ↦ rw miss (gone, erase-Unique k m u.1)
  ]
    where
      gone : lookup j (erase k m) ≡ none
      gone = ground (arith, lookup-erase k j m)
