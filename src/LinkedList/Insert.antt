-- ===== src/LinkedList/Insert.antt =====
-- list_insert_before, list_push and list_append put the element where they say.
use enix.Base.{
  ℕ, ◌≡◌, refl, sym, ◌∙◌, subst, ◌≢◌, true, false, List, [], ◌∷◌, ◌++◌, arith, ◌==◌, has,
  has-append, Distinct, Distinct-append, Distinct-insert, ne_of_has, if◌then◌else◌,
}
use mathlib.Core.List.{append_assoc}
use enix.Interrupt.{intr_set_status-disable}
use enix.LinkedList.{
  Store, ListHead, link_before, list_insert_before, list_push, list_append, Linked, nodes, IsList,
  SameOutside,
}
use enix.LinkedList.Segment.{Linked-split, Linked-join, Linked-frame, has-prev}

module _ (s : Store) (b e : ℕ) (ne : e ≢ b) where
  -- The fields after the four assignments.
  link_before-next :
      (a : ℕ)
      → e ≢ s.prev b
      → (link_before b e s).next a ≡ (if a == e then b else if a == s.prev b then e else s.next a)
  unfolding link_before
  link_before-next a h = ground arith

  link_before-prev :
      (a : ℕ)
      → (link_before b e s).prev a ≡ (if a == b then e else if a == e then s.prev b else s.prev a)
  unfolding link_before
  link_before-prev a = ground arith

  -- The segment that ends at `b` grows by the new node.
  grow :
      (p : ℕ) (xs : List ℕ)
      → Linked s p xs b
      → Distinct (p ∷ xs)
      → has b (p ∷ xs) ≡ false
      → has e (p ∷ xs) ≡ false
      → Linked (link_before b e s) p (xs ++ e ∷ []) b
  grow p [] h d fb fe =
      let n = link_before-next p in
      let m = link_before-next e in
      let v = link_before-prev e in let w = link_before-prev b in ground arith
  grow p (x ∷ xs) h d fb fe =
      let i = has-prev s x b xs h.2 in
      let n = link_before-next p in
      let v = link_before-prev x in
      let apart : p ≢ s.prev b = λ q. ground arith in
      (ground arith, ground arith, grow x xs h.2 d.1 (ground arith) (ground arith))

-- The critical section around the assignments changes neither field.
insert-next :
    (s : Store) (b e a : ℕ) → (list_insert_before b e s).next a ≡ (link_before b e s).next a
unfolding list_insert_before link_before
insert-next s b e a = refl

insert-prev :
    (s : Store) (b e a : ℕ) → (list_insert_before b e s).prev a ≡ (link_before b e s).prev a
unfolding list_insert_before link_before
insert-prev s b e a = refl

insert-intr : (s : Store) (b e : ℕ) → (list_insert_before b e s).intr ≡ s.intr
unfolding list_insert_before link_before
insert-intr s b e = intr_set_status-disable s.intr

-- A new node `e` goes in front of `b`, which the nodes `p ∷ xs` lead to and `rest` follows.
module _ (s : Store) (p b e : ℕ) (xs rest : List ℕ) (h : Linked s p xs b)
    (d : Distinct (p ∷ (xs ++ b ∷ rest))) (fresh : has e (p ∷ (xs ++ b ∷ rest)) ≡ false) where
  new : Store
  new = list_insert_before b e s

  parts :
      Distinct (p ∷ xs)
      × Distinct (b ∷ rest)
      × ((a : ℕ) → has a (p ∷ xs) ≡ true → has a (b ∷ rest) ≡ false)
  parts = Distinct-append (p ∷ xs) (b ∷ rest) d

  e_out : (has e (p ∷ xs) ≡ false) × (has e (b ∷ rest) ≡ false)
  e_out = let a = has-append e (p ∷ xs) (b ∷ rest) in ground arith

  e_ne_b : e ≢ b
  e_ne_b q = let f = e_out.1 in ground arith

  b_front : has b (p ∷ xs) ≡ false
  b_front = ground (arith, parts.2 b)

  prev_in : has (s.prev b) (p ∷ xs) ≡ true
  prev_in = has-prev s p b xs h

  prev_back : has (s.prev b) (b ∷ rest) ≡ false
  prev_back = parts.2 (s.prev b) prev_in

  e_ne_prev : e ≢ s.prev b
  e_ne_prev q = ne_of_has (s.prev b) e (p ∷ xs) prev_in e_out.0 (sym q)

  -- `next` changes at no node from `b` on, `prev` at no node before it.
  next_back : (a : ℕ) → has a (b ∷ rest) ≡ true → new.next a ≡ s.next a
  unfolding new
  next_back a i =
      let q = link_before-next s b e e_ne_b a e_ne_prev in
      let u = ne_of_has a e (b ∷ rest) i e_out.1 in
      let v = ne_of_has a (s.prev b) (b ∷ rest) i prev_back in rw insert-next (ground arith)

  prev_front : (a : ℕ) → has a (p ∷ xs) ≡ true → new.prev a ≡ s.prev a
  unfolding new
  prev_front a i =
      let q = link_before-prev s b e e_ne_b a in
      let u = ne_of_has a e (p ∷ xs) i e_out.0 in
      let v = ne_of_has a b (p ∷ xs) i b_front in rw insert-prev (ground arith)

  prev_rest : (a : ℕ) → has a rest ≡ true → new.prev a ≡ s.prev a
  unfolding new
  prev_rest a i =
      let q = link_before-prev s b e e_ne_b a in
      let f : has e rest ≡ false = let f' = e_out.1 in ground arith in
      let u = ne_of_has a e rest i f in
      let v = ne_of_has a b rest i parts.1.0 in rw insert-prev (ground arith)

  front : Linked new p (xs ++ e ∷ []) b
  unfolding new
  front =
      Linked-frame (link_before b e s) new p b (xs ++ e ∷ [])
        (grow s b e e_ne_b p xs h parts.0 b_front e_out.0) (λ a i. insert-next s b e a)
        (λ a i. insert-prev s b e a)

  outside : SameOutside (e ∷ p ∷ (xs ++ b ∷ rest)) s new
  unfolding new
  outside = record {
    intr = insert-intr s b e;
    same = λ a f.
        let q = link_before-prev s b e e_ne_b a in
        let q' = link_before-next s b e e_ne_b a e_ne_prev in
        let g = has-append a (p ∷ xs) (b ∷ rest) in
        let w : s.prev b ≢ a = ne_of_has (s.prev b) a (p ∷ xs) prev_in (ground arith) in
        rw (insert-next, insert-prev) (ground arith, ground arith);
  }

module _ (s : Store) (l : ListHead) (e : ℕ) where
  -- NULL, which is among the nodes of a list, is not among those that a segment shows.
  with_null : (t : Store) (ns : List ℕ) → SameOutside (e ∷ ns) s t → SameOutside (e ∷ 0 ∷ ns) s t
  with_null t ns o = record { intr = o.intr; same = λ a f. o.same a (ground arith) }

  -- list_append: an element that is new to the list becomes its last one. The interrupt status and
  -- all nodes outside the list stay as they were.
  pub list_append_lem :
      (xs : List ℕ)
      → IsList s l xs
      → has e (nodes l xs) ≡ false
      → IsList (list_append l e s) l (xs ++ e ∷ [])
        × SameOutside (e ∷ nodes l xs) s (list_append l e s)
  unfolding list_append new
  list_append_lem xs is fresh =
      let p = l.head in
      let d = is.distinct.1 in
      let f : has e (p ∷ (xs ++ l.tail ∷ [])) ≡ false = ground arith in
      (
        record {
          chain = front s p l.tail e xs [] is.chain d f;
          distinct =
              rw append_assoc (Distinct-insert (0 ∷ p ∷ xs) (l.tail ∷ []) e is.distinct fresh);
          before_head =
              prev_front s p l.tail e xs [] is.chain d f p (ground arith) ∙ is.before_head;
          behind_tail =
              next_back s p l.tail e xs [] is.chain d f l.tail (ground arith) ∙ is.behind_tail;
        },
        with_null (list_append l e s) (p ∷ (xs ++ l.tail ∷ []))
            (outside s p l.tail e xs [] is.chain d f),
      )

  -- list_insert_before in the middle of a list: an element that is new to the list stands in front
  -- of the given one afterwards. The interrupt status and all nodes outside stay as they were.
  list_insert_before_lem :
      (b : ℕ) (xs ys : List ℕ)
      → IsList s l (xs ++ b ∷ ys)
      → has e (nodes l (xs ++ b ∷ ys)) ≡ false
      → IsList (list_insert_before b e s) l (xs ++ e ∷ b ∷ ys)
        × SameOutside (e ∷ nodes l (xs ++ b ∷ ys)) s (list_insert_before b e s)
  unfolding new
  list_insert_before_lem b xs ys is fresh =
      let p = l.head in
      let rest = ys ++ l.tail ∷ [] in
      let assoc : (xs ++ b ∷ ys) ++ l.tail ∷ [] ≡ xs ++ b ∷ rest =
        append_assoc xs (b ∷ ys) (l.tail ∷ []) in
      let d0 : Distinct (0 ∷ p ∷ (xs ++ b ∷ rest)) =
        subst (λ ns. Distinct (0 ∷ p ∷ ns)) assoc is.distinct in
      let f0 : has e (0 ∷ p ∷ (xs ++ b ∷ rest)) ≡ false =
        subst (λ ns. has e (0 ∷ p ∷ ns) ≡ false) assoc fresh in
      let f : has e (p ∷ (xs ++ b ∷ rest)) ≡ false = ground arith in
      let (h, k) = Linked-split s p l.tail b xs ys is.chain in
      let t = list_insert_before b e s in
      let in_tail : has l.tail rest ≡ true =
        let q = has-append l.tail ys (l.tail ∷ []) in ground arith in
      let chain : Linked t p ((xs ++ e ∷ []) ++ b ∷ ys) l.tail =
        Linked-join t p l.tail b (xs ++ e ∷ []) ys (front s p b e xs rest h d0.1 f) (
          Linked-frame s t b l.tail ys k
            (λ a i.
              next_back s p b e xs rest h d0.1 f a
                (let q = has-append a ys (l.tail ∷ []) in ground arith))
            (prev_rest s p b e xs rest h d0.1 f)) in
      (
        record {
          chain = subst (λ ns. Linked t p ns l.tail) (append_assoc xs (e ∷ []) (b ∷ ys)) chain;
          distinct = rw append_assoc (Distinct-insert (0 ∷ p ∷ xs) (b ∷ rest) e d0 f0);
          before_head = prev_front s p b e xs rest h d0.1 f p (ground arith) ∙ is.before_head;
          behind_tail = next_back s p b e xs rest h d0.1 f l.tail (ground arith) ∙ is.behind_tail;
        },
        subst (λ ns. SameOutside (e ∷ 0 ∷ p ∷ ns) s t) (sym assoc)
            (with_null t (p ∷ (xs ++ b ∷ rest)) (outside s p b e xs rest h d0.1 f)),
      )

  -- list_push: an element that is new to the list becomes its first one. The interrupt status and
  -- all nodes outside the list stay as they were.
  pub list_push_lem :
      (xs : List ℕ)
      → IsList s l xs
      → has e (nodes l xs) ≡ false
      → IsList (list_push l e s) l (e ∷ xs) × SameOutside (e ∷ nodes l xs) s (list_push l e s)
  unfolding list_push list_append
  list_push_lem [] is fresh =
      subst
        (λ b.
          IsList (list_insert_before b e s) l (e ∷ [])
          × SameOutside (e ∷ nodes l []) s (list_insert_before b e s))
        (sym is.chain.0) (list_append_lem [] is fresh)
  list_push_lem (x ∷ xs) is fresh =
      subst
        (λ b.
          IsList (list_insert_before b e s) l (e ∷ x ∷ xs)
          × SameOutside (e ∷ nodes l (x ∷ xs)) s (list_insert_before b e s))
        (sym is.chain.0) (list_insert_before_lem x [] xs is fresh)
