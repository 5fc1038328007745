-- ===== src/LinkedList/Segment.antt =====
-- Segments of a list: how they are cut, what keeps them, and where their last node is.
use enix.Base.{◌∙◌, ℕ, ◌≡◌, true, List, [], ◌∷◌, ◌++◌, arith, has}
use enix.LinkedList.{Store, ListHead, Linked, IsList}

pub Linked-split :
    (s : Store) (p q y : ℕ) (xs ys : List ℕ)
    → Linked s p (xs ++ y ∷ ys) q
    → Linked s p xs y × Linked s y ys q
Linked-split s p q y [] ys h = ((h.0, h.1), h.2)
Linked-split s p q y (x ∷ xs) ys h =
    let (a, b) = Linked-split s x q y xs ys h.2 in ((h.0, h.1, a), b)

pub Linked-join :
    (s : Store) (p q y : ℕ) (xs ys : List ℕ)
    → Linked s p xs y
    → Linked s y ys q
    → Linked s p (xs ++ y ∷ ys) q
Linked-join s p q y [] ys h k = (h.0, h.1, k)
Linked-join s p q y (x ∷ xs) ys h k = (h.0, h.1, Linked-join s x q y xs ys h.2 k)

-- A segment reads `next` at its start and its nodes, `prev` at its nodes and its end.
pub Linked-frame :
    (s t : Store) (p q : ℕ) (xs : List ℕ)
    → Linked s p xs q
    → ((a : ℕ) → has a (p ∷ xs) ≡ true → t.next a ≡ s.next a)
    → ((a : ℕ) → has a (xs ++ q ∷ []) ≡ true → t.prev a ≡ s.prev a)
    → Linked t p xs q
Linked-frame s t p q [] h n v = ground (arith, n p, v q)
Linked-frame s t p q (x ∷ xs) h n v = (
  ground (arith, n p),
  ground (arith, v x),
  Linked-frame s t x q xs h.2 (λ a i. n a (ground arith)) (λ a i. v a (ground arith)),
)

-- The node before the end is one of the segment.
pub has-prev :
    (s : Store) (p q : ℕ) (xs : List ℕ) → Linked s p xs q → has (s.prev q) (p ∷ xs) ≡ true
has-prev s p q [] h = ground arith
has-prev s p q (x ∷ xs) h = ground (arith, has-prev s x q xs h.2)

-- A list is read off the two fields alone.
pub IsList-same :
    (s t : Store) (l : ListHead) (xs : List ℕ)
    → IsList s l xs
    → ((a : ℕ) → t.next a ≡ s.next a)
    → ((a : ℕ) → t.prev a ≡ s.prev a)
    → IsList t l xs
IsList-same s t l xs is n v = record {
  chain = Linked-frame s t l.head l.tail xs is.chain (λ a i. n a) (λ a i. v a);
  distinct = is.distinct;
  before_head = v l.head ∙ is.before_head;
  behind_tail = n l.tail ∙ is.behind_tail;
}
