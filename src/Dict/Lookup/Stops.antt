-- ===== src/Dict/Lookup/Stops.antt =====
-- Where a search of LookupIndex of dict/OpenDict.cc stops that does not find its key.
use zeek_snippets.Prelude.{
  ℕ, zero, suc, ◌+◌, ◌-◌, ◌≤◌, ◌<◌, ◌≡◌, true, false, not, ◌&&◌, List, Option, none, some, length,
  arith, ◌==◌, Bool-cases, inl, inr,
}
use zeek_snippets.Run.{Returns, returns, Returns-if, Returns-map}
use zeek_snippets.Dict.{DictEntry, Dictionary, is_empty, equal}
use zeek_snippets.Dict.Cluster.{in_bucket, up_to_bucket}
use zeek_snippets.Dict.Cluster.Order.{slot, IsFull, HasTable, capacity-HasTable, entry_at-slot}
use zeek_snippets.Dict.Lookup.{Search, found, absent, lookup_loop, linear_loop, linear_lookup_index}

-- From `j` up to `i` stand entries of `bucket` and smaller ones, and at `i` none of them.
pub record EndsAt (t : List DictEntry) (bucket j i : ℕ) : Type 0 where
  pub low : j ≤ i
  pub high : i ≤ length t
  pub run : (m : ℕ) → j ≤ m → m < i → IsFull t m × (m ≤ bucket + (slot t m).distance)
  pub larger : i < length t → IsFull t i → bucket + (slot t i).distance < i

-- What a search returns.
pub data Ended (t : List DictEntry) (bucket j : ℕ) : Search → Type 0 where
  hit : {p : ℕ} → Ended t bucket j (found p)
  miss : {i : ℕ} → EndsAt t bucket j i → Ended t bucket j (absent i (i - bucket))

pub lookup_loop-Ended :
    (d : Dictionary) (t : List DictEntry) (key : List ℕ) (key_size hash bucket n j : ℕ)
    → HasTable d t
    → j + n ≡ length t
    → Returns (Ended t bucket j) (lookup_loop n d key key_size hash bucket j)
unfolding lookup_loop
lookup_loop-Ended d t key key_size hash bucket zero j table size = returns (
    miss (record {
      low = omega arith;
      high = omega arith;
      run = λ m h q. absurd (omega arith);
      larger = λ h. absurd (omega arith);
    }))
lookup_loop-Ended d t key key_size hash bucket (suc n) j table size =
    rw (entry_at-slot d t j table (omega arith)) (
      Returns-if (not (is_empty (slot t j)) && up_to_bucket (slot t j) j bucket)
        (λ on.
          Returns-if (in_bucket (slot t j) j bucket && equal (slot t j) key key_size hash)
            (λ here. returns hit)
            λ other.
              Returns-map
                (lookup_loop-Ended d t key key_size hash bucket n (j + 1) table (omega arith))
                λ s e. further d t bucket j on e)
        (λ off. returns (
          miss (record {
            low = omega arith;
            high = omega arith;
            run = λ m h q. absurd (omega arith);
            larger = λ h full. ground (arith, off, full);
          }))))
  where
    further :
        (d : Dictionary) (t : List DictEntry) (bucket j : ℕ)
        → (not (is_empty (slot t j)) && up_to_bucket (slot t j) j bucket) ≡ true
        → {s : Search} → Ended t bucket (j + 1) s
        → Ended t bucket j s
    further d t bucket j on hit = hit
    further d t bucket j on (miss e) = miss (record {
      low = omega (arith, e.low);
      high = e.high;
      run = λ m h q. ground (arith, on, e.run m);
      larger = e.larger;
    })

-- The linear search finds an entry for the key, if there is one.
pub data Seen (t : List DictEntry) (key : List ℕ) (key_size hash i : ℕ) : Option ℕ → Type 0 where
  seen :
      {p : ℕ}
      → p < length t
      → IsFull t p
      → equal (slot t p) key key_size hash ≡ true
      → Seen t key key_size hash i (some p)
  unseen :
      ((j : ℕ)
        → i ≤ j
        → j < length t
        → (not (is_empty (slot t j)) && equal (slot t j) key key_size hash) ≡ false)
      → Seen t key key_size hash i none

linear_loop-Seen :
    (d : Dictionary) (t : List DictEntry) (key : List ℕ) (key_size hash n i : ℕ)
    → HasTable d t
    → i + n ≡ length t
    → Returns (Seen t key key_size hash i) (linear_loop n d key key_size hash i)
unfolding linear_loop
linear_loop-Seen d t key key_size hash zero i table size =
    returns (unseen (λ j h q. absurd (omega arith)))
linear_loop-Seen d t key key_size hash (suc n) i table size =
    rw (entry_at-slot d t i table (omega arith)) (
      Returns-if (not (is_empty (slot t i)) && equal (slot t i) key key_size hash)
        (λ here. returns (seen (omega arith) (ground arith) (ground arith)))
        λ other.
          Returns-map (linear_loop-Seen d t key key_size hash n (i + 1) table (omega arith))
            λ s e. further t key key_size hash i other e)
  where
    further :
        (t : List DictEntry) (key : List ℕ) (key_size hash i : ℕ)
        → (not (is_empty (slot t i)) && equal (slot t i) key key_size hash) ≡ false
        → {o : Option ℕ} → Seen t key key_size hash (i + 1) o
        → Seen t key key_size hash i o
    further t key key_size hash i other (seen h f e) = seen h f e
    further t key key_size hash i other (unseen none_of) = unseen λ j h q.
        elim (Bool-cases (i == j)) [
          | inl here ↦ let at : i ≡ j = ground arith in rw at at other
          | inr away ↦ none_of j (ground arith) q
        ]

pub linear_lookup_index-Seen :
    (d : Dictionary) (t : List DictEntry) (key : List ℕ) (key_size hash : ℕ)
    → HasTable d t
    → Returns (Seen t key key_size hash 0) (linear_lookup_index d key key_size hash)
unfolding linear_lookup_index
linear_lookup_index-Seen d t key key_size hash table =
    rw (capacity-HasTable d t table)
      (linear_loop-Seen d t key key_size hash (length t) 0 table (omega arith))
