-- ===== src/Cache/Queue.antt =====
-- Lists of nodes with distinct addresses, under `TAILQ_REMOVE` and `TAILQ_INSERT_TAIL`.
use disco_c.Prelude.{
  ℕ, ◌+◌, ◌≡◌, sym, ap, ◌∙◌, ◌≢◌, ◌⊎◌, inl, inr, List, [], ◌∷◌, ◌++◌, arith, length, All, ◌==◌,
  ==_iff, Bool-cases,
}
use disco_c.Cache.Defs.{Node, unlink}

module _ {D : Type 0} where
  abbrev pub In : Node D → List (Node D) → Type 0
  In n [] = ⊥
  In n (m ∷ rest) = (n ≡ m) ⊎ In n rest

  abbrev pub Avoids : ℕ → List (Node D) → Type 0
  Avoids a = All (λ m. m.addr ≢ a)

  abbrev pub IsDistinct : List (Node D) → Type 0
  IsDistinct [] = Unit
  IsDistinct (n ∷ rest) = Avoids n.addr rest × IsDistinct rest

  pub All-In : (P : Node D → Type 0) {n : Node D} (q : List (Node D)) → All P q → In n q → P n
  All-In P [] a i = absurd i
  All-In P (m ∷ rest) a (inl e) = rw e a.0
  All-In P (m ∷ rest) a (inr i) = All-In P rest a.1 i

  pub All-mono :
      (P Q : Node D → Type 0) (q : List (Node D)) → ((n : Node D) → P n → Q n) → All P q → All Q q
  All-mono P Q [] f a = tt
  All-mono P Q (m ∷ rest) f a = (f m a.0, All-mono P Q rest f a.1)

  pub All-append : (P : Node D → Type 0) (q r : List (Node D)) → All P q → All P r → All P (q ++ r)
  All-append P [] r a b = b
  All-append P (m ∷ rest) r a b = (a.0, All-append P rest r a.1 b)

  pub All-unlink : (P : Node D → Type 0) (a : ℕ) (q : List (Node D)) → All P q → All P (unlink a q)
  unfolding unlink
  All-unlink P a [] h = tt
  All-unlink P a (m ∷ rest) h = elim (Bool-cases (m.addr == a)) [
    | inl e ↦ rw e h.1
    | inr e ↦ rw e (h.0, All-unlink P a rest h.1)
  ]

  pub In-append_left : (n : Node D) (q r : List (Node D)) → In n q → In n (q ++ r)
  In-append_left n [] r i = absurd i
  In-append_left n (m ∷ rest) r (inl e) = inl e
  In-append_left n (m ∷ rest) r (inr i) = inr (In-append_left n rest r i)

  pub In-append_right : (n : Node D) (q r : List (Node D)) → In n r → In n (q ++ r)
  In-append_right n [] r i = i
  In-append_right n (m ∷ rest) r i = inr (In-append_right n rest r i)

  pub In-unlink : (n : Node D) (a : ℕ) (q : List (Node D)) → n.addr ≢ a → In n q → In n (unlink a q)
  unfolding unlink
  In-unlink n a [] d i = i
  In-unlink n a (m ∷ rest) d (inl e) = elim (Bool-cases (m.addr == a)) [
    | inl t ↦ absurd (d (ground (arith, ==_iff m.addr a)))
    | inr t ↦ rw t (inl e)
  ]
  In-unlink n a (m ∷ rest) d (inr i) = elim (Bool-cases (m.addr == a)) [
    | inl t ↦ rw t i
    | inr t ↦ rw t (inr (In-unlink n a rest d i))
  ]

  pub length-unlink :
      (n : Node D) (q : List (Node D)) → In n q → length (unlink n.addr q) + 1 ≡ length q
  unfolding unlink
  length-unlink n [] i = absurd i
  length-unlink n (m ∷ rest) (inl e) = ground arith
  length-unlink n (m ∷ rest) (inr i) = ground (arith, length-unlink n rest i)

  pub IsDistinct-unlink : (a : ℕ) (q : List (Node D)) → IsDistinct q → IsDistinct (unlink a q)
  unfolding unlink
  IsDistinct-unlink a [] d = tt
  IsDistinct-unlink a (m ∷ rest) d = elim (Bool-cases (m.addr == a)) [
    | inl e ↦ rw e d.1
    | inr e ↦ rw e (All-unlink (λ k. k.addr ≢ m.addr) a rest d.0, IsDistinct-unlink a rest d.1)
  ]

  pub Avoids-unlink : (a : ℕ) (q : List (Node D)) → IsDistinct q → Avoids a (unlink a q)
  unfolding unlink
  Avoids-unlink a [] d = tt
  Avoids-unlink a (m ∷ rest) d = elim (Bool-cases (m.addr == a)) [
    | inl e ↦ rw e (subst_avoids ((==_iff m.addr a).0 e) d.0)
    | inr e ↦ rw e (ground arith, Avoids-unlink a rest d.1)
  ]
    where
      subst_avoids : m.addr ≡ a → Avoids m.addr rest → Avoids a rest
      subst_avoids e h = rw e at h

  pub IsDistinct-append :
      (q : List (Node D)) (n : Node D) → IsDistinct q → Avoids n.addr q → IsDistinct (q ++ n ∷ [])
  IsDistinct-append [] n d a = (tt, tt)
  IsDistinct-append (m ∷ rest) n d a = (
    All-append (λ k. k.addr ≢ m.addr) rest (n ∷ []) d.0 (λ e. a.0 (cc e), tt),
    IsDistinct-append rest n d.1 a.1,
  )

  -- In such a list an address determines its node.
  pub eq_of_addr :
      (n m : Node D) (q : List (Node D)) → IsDistinct q → In n q → In m q → n.addr ≡ m.addr → n ≡ m
  eq_of_addr n m [] d i j e = absurd i
  eq_of_addr n m (k ∷ rest) d (inl i) (inl j) e = i ∙ sym j
  eq_of_addr n m (k ∷ rest) d (inl i) (inr j) e =
      absurd (All-In (λ x. x.addr ≢ k.addr) rest d.0 j (cc (ap (λ (x : Node D). x.addr) i)))
  eq_of_addr n m (k ∷ rest) d (inr i) (inl j) e =
      absurd (All-In (λ x. x.addr ≢ k.addr) rest d.0 i (cc (ap (λ (x : Node D). x.addr) j)))
  eq_of_addr n m (k ∷ rest) d (inr i) (inr j) e = eq_of_addr n m rest d.1 i j e
