-- ===== src/LinkedList/Remove.antt =====
-- list_remove and list_pop take out the element that they say, and no other.
use enix.Base.{
  ℕ, ◌≡◌, refl, sym, ◌∙◌, subst, ◌≢◌, true, false, List, [], ◌∷◌, ◌++◌, arith, ◌==◌, has,
  has-append, Distinct, Distinct-append, Distinct-erase, ne_of_has, if◌then◌else◌,
}
use mathlib.Core.List.{append_assoc, append-nil}
use enix.Interrupt.{intr_set_status-disable}
use enix.LinkedList.{Store, ListHead, list_remove, list_pop, Linked, nodes, IsList, SameOutside}
use enix.LinkedList.Segment.{Linked-split, Linked-join, Linked-frame, has-prev}

module _ (s : Store) (e : ℕ) where
  remove-next : (a : ℕ) → (list_remove e s).next a ≡ (if a == s.prev e then s.next e else s.next a)
  unfolding list_remove
  remove-next a = refl

  remove-prev :
      (a : ℕ)
      → s.prev e ≢ e
      → (list_remove e s).prev a ≡ (if a == s.next e then s.prev e else s.prev a)
  unfolding list_remove
  remove-prev a h = ground arith

  remove-intr : (list_remove e s).intr ≡ s.intr
  unfolding list_remove
  remove-intr = intr_set_status-disable s.intr

  -- The segment that ended at `e` ends at the node behind it.
  shrink :
      (p : ℕ) (xs : List ℕ)
      → Linked s p xs e
      → Distinct (p ∷ xs)
      → has e (p ∷ xs) ≡ false
      → has (s.next e) (p ∷ xs) ≡ false
      → Linked (list_remove e s) p xs (s.next e)
  shrink p [] h d fe fn =
      let n = remove-next p in let v = remove-prev (s.next e) (λ q. ground arith) in ground arith
  shrink p (x ∷ xs) h d fe fn =
      let i = has-prev s x e xs h.2 in
      let n = remove-next p in
      let ne : s.prev e ≢ e = ne_of_has (s.prev e) e (x ∷ xs) i (ground arith) in
      let v = remove-prev x ne in
      let apart : p ≢ s.prev e = λ q. ground arith in
      (ground arith, ground arith, shrink x xs h.2 d.1 (ground arith) (ground arith))

-- The node `e` stands between the nodes `p ∷ xs` and the node `n`, which `rest` follows.
module _ (s : Store) (p e n : ℕ) (xs rest : List ℕ) (h : Linked s p xs e) (en : s.next e ≡ n)
    (d : Distinct (p ∷ (xs ++ e ∷ n ∷ rest))) where
  new : Store
  new = list_remove e s

  parts :
      Distinct (p ∷ xs)
      × Distinct (e ∷ n ∷ rest)
      × ((a : ℕ) → has a (p ∷ xs) ≡ true → has a (e ∷ n ∷ rest) ≡ false)
  parts = Distinct-append (p ∷ xs) (e ∷ n ∷ rest) d

  prev_in : has (s.prev e) (p ∷ xs) ≡ true
  prev_in = has-prev s p e xs h

  out : (a : ℕ) → has a (e ∷ n ∷ rest) ≡ true → has a (p ∷ xs) ≡ false
  out a i = ground (arith, parts.2 a)

  prev_ne : s.prev e ≢ e
  prev_ne = ne_of_has (s.prev e) e (p ∷ xs) prev_in (out e (ground arith))

  next_back : (a : ℕ) → has a (n ∷ rest) ≡ true → new.next a ≡ s.next a
  unfolding new
  next_back a i =
      let q = remove-next s e a in
      let v = ne_of_has (s.prev e) a (p ∷ xs) prev_in (out a (ground arith)) in ground arith

  prev_front : (a : ℕ) → has a (p ∷ xs) ≡ true → new.prev a ≡ s.prev a
  unfolding new
  prev_front a i =
      let q = remove-prev s e a prev_ne in
      let v = ne_of_has a n (p ∷ xs) i (out n (ground arith)) in ground arith

  prev_rest : (a : ℕ) → has a rest ≡ true → new.prev a ≡ s.prev a
  unfolding new
  prev_rest a i =
      let q = remove-prev s e a prev_ne in let v = ne_of_has a n rest i parts.1.1.0 in ground arith

  front : Linked new p xs n
  unfolding new
  front =
      subst (Linked (list_remove e s) p xs) en
        (shrink s e p xs h parts.0 (out e (ground arith)) (out (s.next e) (ground arith)))

  outside : SameOutside (p ∷ (xs ++ e ∷ n ∷ rest)) s new
  unfolding new
  outside = record {
    intr = remove-intr s e;
    same = λ a f.
        let q = remove-next s e a in
        let q' = remove-prev s e a prev_ne in
        let g = has-append a (p ∷ xs) (e ∷ n ∷ rest) in
        let w : s.prev e ≢ a = ne_of_has (s.prev e) a (p ∷ xs) prev_in (ground arith) in
        (ground arith, ground arith);
  }

module _ (s : Store) (l : ListHead) (e : ℕ) where
  abbrev Removed : List ℕ → List ℕ → Type 0
  Removed xs ys =
      IsList (list_remove e s) l (xs ++ ys)
      × SameOutside (nodes l (xs ++ e ∷ ys)) s (list_remove e s)

  with_null : (t : Store) (ns : List ℕ) → SameOutside ns s t → SameOutside (0 ∷ ns) s t
  with_null t ns o = record { intr = o.intr; same = λ a f. o.same a (ground arith) }

  -- list_remove of any element of a list leaves the elements before and behind it, in order. The
  -- interrupt status and all nodes outside the list stay as they were.
  pub list_remove_lem : (xs ys : List ℕ) → IsList s l (xs ++ e ∷ ys) → Removed xs ys
  unfolding new
  list_remove_lem xs [] is =
      let p = l.head in
      let assoc = append_assoc xs (e ∷ []) (l.tail ∷ []) in
      let d0 : Distinct (0 ∷ p ∷ (xs ++ e ∷ l.tail ∷ [])) =
        subst (λ ns. Distinct (0 ∷ p ∷ ns)) assoc is.distinct in
      let d = d0.1 in
      let (h, k) = Linked-split s p l.tail e xs [] is.chain in
      (
        record {
          chain = rw append-nil (front s p e l.tail xs [] h k.0 d);
          distinct = rw append-nil (Distinct-erase (0 ∷ p ∷ xs) (l.tail ∷ []) e d0).0;
          before_head = prev_front s p e l.tail xs [] h k.0 d p (ground arith) ∙ is.before_head;
          behind_tail = next_back s p e l.tail xs [] h k.0 d l.tail (ground arith) ∙ is.behind_tail;
        },
        subst (λ ns. SameOutside (0 ∷ p ∷ ns) s (list_remove e s)) (sym assoc)
            (with_null _ (p ∷ (xs ++ e ∷ l.tail ∷ [])) (outside s p e l.tail xs [] h k.0 d)),
      )
  list_remove_lem xs (y ∷ ys) is =
      let p = l.head in
      let t = list_remove e s in
      let rest = ys ++ l.tail ∷ [] in
      let assoc = append_assoc xs (e ∷ y ∷ ys) (l.tail ∷ []) in
      let d0 : Distinct (0 ∷ p ∷ (xs ++ e ∷ y ∷ rest)) =
        subst (λ ns. Distinct (0 ∷ p ∷ ns)) assoc is.distinct in
      let d = d0.1 in
      let (h, k) = Linked-split s p l.tail e xs (y ∷ ys) is.chain in
      let q = λ (a : ℕ). has-append a ys (l.tail ∷ []) in
      let back : Linked t y ys l.tail =
        Linked-frame s t y l.tail ys k.2
          (λ a i. next_back s p e y xs rest h k.0 d a (ground (arith, q a)))
          (prev_rest s p e y xs rest h k.0 d) in
      (
        record {
          chain = Linked-join t p l.tail y xs ys (front s p e y xs rest h k.0 d) back;
          distinct = rw append_assoc (Distinct-erase (0 ∷ p ∷ xs) (y ∷ rest) e d0).0;
          before_head = prev_front s p e y xs rest h k.0 d p (ground arith) ∙ is.before_head;
          behind_tail =
              next_back s p e y xs rest h k.0 d l.tail (ground (arith, q l.tail)) ∙ is.behind_tail;
        },
        subst (λ ns. SameOutside (0 ∷ p ∷ ns) s t) (sym assoc)
            (with_null _ (p ∷ (xs ++ e ∷ y ∷ rest)) (outside s p e y xs rest h k.0 d)),
      )

-- list_pop of a list that is not empty returns its first element and leaves the others, in order.
-- The interrupt status and all nodes outside the list stay as they were.
pub list_pop_lem :
    (s : Store) (l : ListHead) (x : ℕ) (xs : List ℕ)
    → IsList s l (x ∷ xs)
    → ((list_pop l s).0 ≡ x)
      × IsList (list_pop l s).1 l xs
      × SameOutside (nodes l (x ∷ xs)) s (list_pop l s).1
unfolding list_pop
list_pop_lem s l x xs is =
    let e = is.chain.0 in
    let (a, b) = list_remove_lem s l x [] xs is in
    (
      e,
      subst (λ y. IsList (list_remove y s) l xs) (sym e) a,
      subst (λ y. SameOutside (nodes l (x ∷ xs)) s (list_remove y s)) (sym e) b,
    )
