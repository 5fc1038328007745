-- ===== src/LinkedList/Walk.antt =====
-- The functions that only walk a list: they end, and what they return of the elements.
use enix.Base.{
  ℕ, zero, suc, ◌+◌, ◌<◌, ◌≡◌, refl, ◌≢◌, Bool, true, false, some, List, [], ◌∷◌, arith, ◌==◌, has,
  is_nil, has-append, Distinct-append, ap, ◌∙◌, if◌then◌else◌, length, add32, u32_mod,
}
use enix.LinkedList.{
  Store, ListHead, list_init, list_empty, find_loop, elem_find, traversal_loop, list_traversal,
  len_loop, list_len, Linked, IsList,
}

-- list_init makes an empty list of two distinct nodes.
pub list_init_lem :
    (l : ListHead) (s : Store)
    → l.head ≢ 0
    → l.tail ≢ 0
    → l.head ≢ l.tail
    → IsList (list_init l s) l []
unfolding list_init
list_init_lem l s h t ne = ground arith

-- The first element that passes, or NULL.
abbrev pub find_first : (ℕ → Bool) → List ℕ → ℕ
find_first func [] = 0
find_first func (x ∷ xs) = if func x then x else find_first func xs

module _ (s : Store) (l : ListHead) where
  -- Walking from the element after `p`: none of the rest is NULL or the tail.
  find_loop_lem :
      (fuel p obj : ℕ) (xs : List ℕ)
      → Linked s p xs l.tail
      → has 0 xs ≡ false
      → has l.tail xs ≡ false
      → length xs < fuel
      → find_loop fuel l obj (s.next p) s ≡ some (has obj xs)
  unfolding find_loop
  find_loop_lem zero p obj xs h z t f = absurd (omega arith)
  find_loop_lem (suc fuel) p obj [] h z t f = ground arith
  find_loop_lem (suc fuel) p obj (x ∷ xs) h z t f =
      rw h.0 (ground (arith, find_loop_lem fuel x obj xs h.2))

  traversal_loop_lem :
      (fuel p : ℕ) (func : ℕ → Bool) (xs : List ℕ)
      → Linked s p xs l.tail
      → has l.tail xs ≡ false
      → length xs < fuel
      → traversal_loop fuel func l (s.next p) s ≡ some (find_first func xs)
  unfolding traversal_loop
  traversal_loop_lem zero p func xs h t f = absurd (omega arith)
  traversal_loop_lem (suc fuel) p func [] h t f = ground arith
  traversal_loop_lem (suc fuel) p func (x ∷ xs) h t f =
      rw h.0 (ground (arith, traversal_loop_lem fuel x func xs h.2))

  len_loop_lem :
      (fuel p len : ℕ) (xs : List ℕ)
      → Linked s p xs l.tail
      → has l.tail xs ≡ false
      → length xs < fuel
      → len + length xs < u32_mod
      → len_loop fuel l len (s.next p) s ≡ some (len + length xs)
  unfolding len_loop
  len_loop_lem zero p len xs h t f b = absurd (omega arith)
  len_loop_lem (suc fuel) p len [] h t f b = ground arith
  len_loop_lem (suc fuel) p len (x ∷ xs) h t f b =
      let e : add32 len 1 ≡ len + 1 = omega arith in
      let tail_ne : (x == l.tail) ≡ false = ground arith in
      rw
        (
          h.0,
          tail_ne,
          e,
          len_loop_lem fuel x (len + 1) xs h.2 (ground arith) (omega arith) (omega arith),
        )
        (ap some (omega arith))

module _ (s : Store) (l : ListHead) (xs : List ℕ) (is : IsList s l xs) where
  -- No element is NULL or the tail node.
  no_null : has 0 xs ≡ false
  no_null = let q = has-append 0 xs (l.tail ∷ []) in let d = is.distinct.0 in ground arith

  no_tail : has l.tail xs ≡ false
  no_tail = let a = Distinct-append xs (l.tail ∷ []) is.distinct.1.1 in ground (arith, a.2 l.tail)

  -- list_empty tells whether the list has no element.
  pub list_empty-is_nil : list_empty l s ≡ is_nil xs
  unfolding list_empty
  list_empty-is_nil = split xs is.chain no_tail
    where
      split :
          (ys : List ℕ)
          → Linked s l.head ys l.tail
          → has l.tail ys ≡ false
          → (s.next l.head == l.tail) ≡ is_nil ys
      split [] h t = ground arith
      split (y ∷ ys) h t = ground arith

  -- With more rounds than elements elem_find ends, and it tells whether the element is in the list.
  pub elem_find-has : (fuel obj : ℕ) → length xs < fuel → elem_find fuel l obj s ≡ some (has obj xs)
  unfolding elem_find
  elem_find-has fuel obj f = find_loop_lem s l fuel l.head obj xs is.chain no_null no_tail f

  -- With more rounds than elements list_len ends, and it is the number of elements.
  list_len-length :
      (fuel : ℕ) → length xs < fuel → length xs < u32_mod → list_len fuel l s ≡ some (length xs)
  unfolding list_len
  list_len-length fuel f b =
      len_loop_lem s l fuel l.head 0 xs is.chain no_tail f (omega arith) ∙ ap some (omega arith)

  -- With more rounds than elements list_traversal ends, and it returns the first element that the
  -- callback accepts, or NULL.
  list_traversal-find_first :
      (fuel : ℕ) (func : ℕ → Bool)
      → length xs < fuel
      → list_traversal fuel l func s ≡ some (find_first func xs)
  unfolding list_traversal list_empty
  list_traversal-find_first fuel func f = ground (
    arith,
    empty_case xs is.chain no_tail,
    traversal_loop_lem s l fuel l.head func xs is.chain no_tail f,
  )
    where
      empty_case :
          (ys : List ℕ)
          → Linked s l.head ys l.tail
          → has l.tail ys ≡ false
          → (s.next l.head == l.tail) ≡ true
          → find_first func ys ≡ 0
      empty_case [] h t q = refl
      empty_case (y ∷ ys) h t q = absurd (ground arith)
