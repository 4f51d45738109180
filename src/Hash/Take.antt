-- ===== src/Hash/Take.antt =====
-- TakeKey of dict/Hash.cc, and what may be deleted after it.
use zeek_snippets.Prelude.{
  ℕ, zero, suc, ◌<◌, ◌≡◌, ◌≢◌, refl, sym, ap, ◌∙◌, true, false, List, [], ◌∷◌, ◌++◌, Option, none,
  some, length, get_elem?, set, take, length-take, leb, arith,
}
use zeek_snippets.Run.{ok, cell, >>=-eq-ok, Returns, returns, Returns-if}
use zeek_snippets.Hash.{Memory, HashKey, bytes_at, copy_key, destroy, take_key}

get_elem?-last : (m : Memory) (b : Option (List ℕ)) → get_elem? (m ++ b ∷ []) (length m) ≡ some b
get_elem?-last [] b = refl
get_elem?-last (x ∷ m) b = get_elem?-last m b

get_elem?-set_ne :
    (m : Memory) (a p : ℕ) (b : Option (List ℕ)) → a ≢ p → get_elem? (set m a b) p ≡ get_elem? m p
get_elem?-set_ne [] a p b ne = refl
get_elem?-set_ne (x ∷ m) zero zero b ne = absurd (ne refl)
get_elem?-set_ne (x ∷ m) zero (suc p) b ne = refl
get_elem?-set_ne (x ∷ m) (suc a) zero b ne = refl
get_elem?-set_ne (x ∷ m) (suc a) (suc p) b ne = get_elem?-set_ne m a p b (λ same. ne (ap suc same))

take_self : (bytes : List ℕ) → take (length bytes) bytes ≡ bytes
take_self [] = refl
take_self (x ∷ bytes) = ap (λ xs. x ∷ xs) (take_self bytes)

length-bytes_at :
    (m : Memory) (p size : ℕ) (bytes : List ℕ) → bytes_at m p size ≡ ok bytes → length bytes ≡ size
unfolding bytes_at
length-bytes_at m p size bytes run =
    let (b, there, run₁) = >>=-eq-ok (cell (get_elem? m p)) _ run in
    let (all, full, run₂) = >>=-eq-ok (cell b) _ run₁ in ground (arith, run₂, length-take size all)

bytes_at-new :
    (m : Memory) (bytes : List ℕ) (size : ℕ)
    → length bytes ≡ size
    → bytes_at (m ++ some bytes ∷ []) (length m) size ≡ ok bytes
unfolding bytes_at
bytes_at-new m bytes size width =
    let fits : leb size (length bytes) ≡ true = ground (arith, width) in
    rw (get_elem?-last m (some bytes), fits, sym width, take_self bytes) refl

-- The end of another block.
bytes_at-set_ne :
    (m : Memory) (a p size : ℕ) → a ≢ p → bytes_at (set m a none) p size ≡ bytes_at m p size
unfolding bytes_at
bytes_at-set_ne m a p size ne = rw (get_elem?-set_ne m a p none ne) refl

-- The key's members are in the memory, and a block that the key owns is not one of them.
pub record IsKey (m : Memory) (h : HashKey) : Type 0 where
  pub there : h.key_u < length m
  pub apart : h.is_our_dynamic ≡ true → h.key_u ≢ h.key

-- The caller has the bytes of the key, in a block that the key does not own: the key's destructor
-- leaves it, and so does the end of any block that was there, unless the key owned that block.
pub record Taken (m : Memory) (h : HashKey) (bytes : List ℕ) (r : ℕ × Memory × HashKey)
    : Type 0 where
  pub same : bytes_at r.1 r.0 h.size ≡ ok bytes
  pub released : r.2.is_our_dynamic ≡ false
  pub kept : bytes_at (destroy r.1 r.2) r.0 h.size ≡ ok bytes
  pub lasting :
      (a : ℕ)
      → a < length m
      → (h.is_our_dynamic ≡ true → a ≢ h.key)
      → bytes_at (set r.1 a none) r.0 h.size ≡ ok bytes

-- TakeKey of a key whose bytes can be read, and that owns no block or one beside its member key_u,
-- returns: the caller gets the same bytes, the key does not own memory after it, and what the caller
-- got outlives the key, and every block that was there before and that the key did not own, the one
-- that the key was made from included.
pub take_key-Taken :
    (m : Memory) (h : HashKey) (bytes : List ℕ)
    → IsKey m h
    → bytes_at m h.key h.size ≡ ok bytes
    → Returns (Taken m h bytes) (take_key m h)
unfolding take_key copy_key destroy
take_key-Taken m h bytes k run =
    let new = bytes_at-new m bytes h.size (length-bytes_at m h.key h.size bytes run) in
    let fresh = λ (a : ℕ) (inside : a < length m).
      bytes_at-set_ne (m ++ some bytes ∷ []) a (length m) h.size (λ same. absurd (omega arith))
      ∙ new in
    Returns-if h.is_our_dynamic
      (λ dynamic. returns (record {
        same = run;
        released = refl;
        kept = bytes_at-set_ne m h.key_u h.key h.size (k.apart dynamic) ∙ run;
        lasting = λ a inside other. bytes_at-set_ne m a h.key h.size (other dynamic) ∙ run;
      }))
      λ shared. rw run (
        returns (record {
          same = new;
          released = shared;
          kept = unfold destroy in rw shared (fresh h.key_u k.there);
          lasting = λ a inside other. fresh a inside;
        }))
