-- ===== src/Topology/Distance/Queue.antt =====
-- The heap of `shortest_distance_excluding` as an ordered list.
use mathlib.Core.List.Memᴰ
use telconet_sentinel.Common.{
  ℕ, suc, ◌≤◌, String, true, false, List, [], ◌∷◌, Memᴰ, ◌≡◌, ◌⊎◌, ◌↔◌, arith, length, IsOrdered,
  IsUnique, insert_sorted-IsUnique, Memᴰ-insert_sorted, length-insert_sorted,
  insert_sorted-IsOrdered, IsUnique, insert_sorted-IsUnique, name_leb_total, name_leb_trans,
}
use telconet_sentinel.Topology.Distance.{Entry, entry_leb, heappush}

entry_leb_total : (a b : Entry) → entry_leb a b ≡ false → entry_leb b a ≡ true
unfolding entry_leb
entry_leb_total (d, n) (e, m) h = ground (arith, name_leb_total n m)

entry_leb_trans :
    (a b c : Entry) → entry_leb a b ≡ true → entry_leb b c ≡ true → entry_leb a c ≡ true
unfolding entry_leb
entry_leb_trans (d, n) (e, m) (f, o) h k = ground (arith, name_leb_trans n m o)

pub entry_leb-le : (d e : ℕ) (n m : String) → entry_leb (d, n) (e, m) ≡ true → d ≤ e
unfolding entry_leb
entry_leb-le d e n m h = ground arith

pub IsHeap : List Entry → Type 0
IsHeap q = IsOrdered entry_leb q

pub IsHeap-one : (e : Entry) → IsHeap (e ∷ [])
unfolding IsHeap
IsHeap-one e = (λ y m. absurd (Memᴰ.not-nil m), tt)

pub heappush-IsHeap : (q : List Entry) (e : Entry) → IsHeap q → IsHeap (heappush q e)
unfolding heappush IsHeap
heappush-IsHeap q e h = insert_sorted-IsOrdered entry_leb entry_leb_total entry_leb_trans e q h

pub IsHeap-tail : (e : Entry) (q : List Entry) → IsHeap (e ∷ q) → IsHeap q
unfolding IsHeap
IsHeap-tail e q h = h.1

pub IsHeap-head :
    (d : ℕ) (n : String) (q : List Entry)
    → IsHeap ((d, n) ∷ q)
    → (e : ℕ) (m : String) → Memᴰ (e, m) q
    → d ≤ e
unfolding IsHeap
IsHeap-head d n q h e m k = entry_leb-le d e n m (h.0 (e, m) k)

pub Memᴰ-heappush :
    (a : Entry) (q : List Entry) (e : Entry) → Memᴰ a (heappush q e) ↔ ((a ≡ e) ⊎ Memᴰ a q)
unfolding heappush
Memᴰ-heappush a q e = Memᴰ-insert_sorted entry_leb a e q

pub length-heappush : (q : List Entry) (e : Entry) → length (heappush q e) ≡ suc (length q)
unfolding heappush
length-heappush q e = length-insert_sorted entry_leb e q

abbrev pub IsUniqueHeap : List Entry → Type 0
IsUniqueHeap q = IsUnique entry_leb q

pub heappush-IsUniqueHeap :
    (q : List Entry) (e : Entry) → (¬ Memᴰ e q) → IsUniqueHeap q → IsUniqueHeap (heappush q e)
unfolding heappush
heappush-IsUniqueHeap q e new h = insert_sorted-IsUnique entry_leb e q new h
