-- ===== src/LinkedList.antt =====
-- lib/list.c and lib/list.h: doubly linked lists with a head node and a tail node.
--
-- A pointer is a number, 0 for NULL. The store holds the two fields of every `struct list_elem`,
-- the interrupt flag beside them. `Linked` reads the nodes of a list off the store, in order.
pub mod Segment
pub mod Insert
pub mod Remove
pub mod Walk
use enix.Base.{
  ℕ, zero, suc, ◌+◌, ◌≡◌, Bool, true, false, Option, none, some, List, [], ◌∷◌, ◌++◌, ◌==◌, not,
  ◌&&◌, if◌then◌else◌, add32, update, has, Distinct,
}
use enix.Interrupt.{IntrStatus, intr_disable, intr_set_status}

-- The fields of every struct list_elem, and EFLAGS.IF.
pub record Store : Type 0 where
  pub prev : ℕ → ℕ
  pub next : ℕ → ℕ
  pub intr : IntrStatus

-- struct list: the addresses of its two nodes.
pub record ListHead : Type 0 where
  pub head : ℕ
  pub tail : ℕ

abbrev pub set_prev : Store → ℕ → ℕ → Store
set_prev s a v = record s { prev = update s.prev a v }

abbrev pub set_next : Store → ℕ → ℕ → Store
set_next s a v = record s { next = update s.next a v }

-- intr_disable(), the body, intr_set_status(old_status)
abbrev pub critical : (Store → Store) → Store → Store
critical body s =
    let (old_status, off) = intr_disable s.intr in
    let s' = body (record s { intr = off }) in
    record s' { intr = (intr_set_status old_status s'.intr).1 }

unfoldable pub list_init : ListHead → Store → Store
list_init l s =
    let s1 = set_prev s l.head 0 in
    let s2 = set_next s1 l.head l.tail in let s3 = set_prev s2 l.tail l.head in set_next s3 l.tail 0

-- The four assignments, in their order.
unfoldable pub link_before : ℕ → ℕ → Store → Store
link_before before elem s =
    let s1 = set_next s (s.prev before) elem in
    let s2 = set_prev s1 elem (s1.prev before) in
    let s3 = set_next s2 elem before in set_prev s3 before elem

unfoldable pub list_insert_before : ℕ → ℕ → Store → Store
unfolding link_before intr_disable intr_set_status
list_insert_before before elem = critical (link_before before elem)

unfoldable pub list_push : ListHead → ℕ → Store → Store
unfolding list_insert_before
list_push plist elem s = list_insert_before (s.next plist.head) elem s

unfoldable pub list_append : ListHead → ℕ → Store → Store
unfolding list_insert_before
list_append plist elem = list_insert_before plist.tail elem

unfoldable pub unlink : ℕ → Store → Store
unlink pelem s =
    let s1 = set_next s (s.prev pelem) (s.next pelem) in set_prev s1 (s1.next pelem) (s1.prev pelem)

unfoldable pub list_remove : ℕ → Store → Store
unfolding unlink intr_disable intr_set_status
list_remove pelem = critical (unlink pelem)

unfoldable pub list_pop : ListHead → Store → ℕ × Store
unfolding list_remove
list_pop plist s = let elem = s.next plist.head in (elem, list_remove elem s)

unfoldable pub list_empty : ListHead → Store → Bool
list_empty plist s = s.next plist.head == plist.tail

-- The loops take fuel; `none` means that it ran out.
unfoldable pub find_loop : ℕ → ListHead → ℕ → ℕ → Store → Option Bool
find_loop zero plist obj elem s = none
find_loop (suc fuel) plist obj elem s =
    let rest = find_loop fuel plist obj (s.next elem) s in
    if not (elem == plist.tail) && not (elem == 0)
    then (if elem == obj then some true else rest)
    else some false

unfoldable pub elem_find : ℕ → ListHead → ℕ → Store → Option Bool
unfolding find_loop
elem_find fuel plist obj_elem s = find_loop fuel plist obj_elem (s.next plist.head) s

-- `func elem` stands for func(elem, arg); the result 0 is NULL.
unfoldable pub traversal_loop : ℕ → (ℕ → Bool) → ListHead → ℕ → Store → Option ℕ
traversal_loop zero func plist elem s = none
traversal_loop (suc fuel) func plist elem s =
    let rest = traversal_loop fuel func plist (s.next elem) s in
    if not (elem == plist.tail) then (if func elem then some elem else rest) else some 0

unfoldable pub list_traversal : ℕ → ListHead → (ℕ → Bool) → Store → Option ℕ
unfolding traversal_loop list_empty
list_traversal fuel plist func s =
    let walk = traversal_loop fuel func plist (s.next plist.head) s in
    if list_empty plist s then some 0 else walk

unfoldable pub len_loop : ℕ → ListHead → ℕ → ℕ → Store → Option ℕ
len_loop zero plist len elem s = none
len_loop (suc fuel) plist len elem s =
    let rest = len_loop fuel plist (add32 len 1) (s.next elem) s in
    if not (elem == plist.tail) then rest else some len

unfoldable pub list_len : ℕ → ListHead → Store → Option ℕ
unfolding len_loop
list_len fuel plist s = len_loop fuel plist 0 (s.next plist.head) s

-- From `p` the `next` fields lead through `xs` to `q`, and the `prev` fields lead back.
abbrev pub Linked : Store → ℕ → List ℕ → ℕ → Type 0
Linked s p [] q = (s.next p ≡ q) × (s.prev q ≡ p)
Linked s p (x ∷ xs) q = (s.next p ≡ x) × (s.prev x ≡ p) × Linked s x xs q

-- The nodes of a list that holds `xs`, and NULL.
abbrev pub nodes : ListHead → List ℕ → List ℕ
nodes l xs = 0 ∷ l.head ∷ (xs ++ l.tail ∷ [])

-- `xs` are the elements of the list, and no node of it is NULL or occurs twice.
pub record IsList (s : Store) (l : ListHead) (xs : List ℕ) : Type 0 where
  pub chain : Linked s l.head xs l.tail
  pub distinct : Distinct (nodes l xs)
  pub before_head : s.prev l.head ≡ 0
  pub behind_tail : s.next l.tail ≡ 0

-- The interrupt flag and the fields of the nodes outside `touched` are as before.
pub record SameOutside (touched : List ℕ) (s t : Store) : Type 0 where
  pub intr : t.intr ≡ s.intr
  pub same : (a : ℕ) → has a touched ≡ false → (t.next a ≡ s.next a) × (t.prev a ≡ s.prev a)
