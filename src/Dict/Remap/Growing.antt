-- ===== src/Dict/Remap/Growing.antt =====
-- The dictionary of dict/OpenDict.cc as a map while it grows: SizeUp and Remap keep the map.
use zeek_snippets.Prelude.{
  ℕ, ◌≤◌, ◌≡◌, ◌⊎◌, refl, sym, subst, ap, ◌∙◌, Bool, true, List, none, arith, inl, inr,
}
use zeek_snippets.Run.{Returns, Returns-map}
use zeek_snippets.Dict.{DictEntry, Dictionary}
use zeek_snippets.Dict.Math.{bucket_by_hash}
use zeek_snippets.Dict.Cluster.Order.{slot, placed-IsMapped}
use zeek_snippets.Dict.Relocate.Count.{count, IgnoresDistance}
use zeek_snippets.Dict.Remap.{remap}
use zeek_snippets.Dict.Remap.Mixed.{IsMixed}
use zeek_snippets.Dict.Remap.Rounds.{Remapped, remap-Remapped}
use zeek_snippets.Dict.Contents.{for_key, binding, IsWellFormed}
use zeek_snippets.Dict.Contents.Keys.{for_key-IgnoresDistance, binding-IgnoresDistance}
use zeek_snippets.Dict.Contents.View.{value_in, value_in-same}

-- One remap is pending and no iteration goes on, the table is one between two sizes, no key has two
-- entries, and the entries are counted.
pub record IsGrowing (n : ℕ) (d : Dictionary) (t : List DictEntry) : Type 0 where
  pub mixed : IsMixed n d t
  pub remaps : d.remaps ≡ 1
  pub iterators : d.num_iterators ≡ 0
  pub unique : (key : List ℕ) (key_size hash : ℕ) → count (for_key key key_size hash) t ≤ 1
  pub counted : d.num_entries ≡ count (λ x. true) t

-- The tables are the same map.
abbrev pub SameMap : List DictEntry → List DictEntry → Type 0
SameMap t t' =
    (key : List ℕ) (key_size hash : ℕ)
    → value_in t' key key_size hash ≡ value_in t key key_size hash

pub counts-SameMap :
    (t t' : List DictEntry)
    → ((key : List ℕ) (key_size hash : ℕ) → count (for_key key key_size hash) t ≤ 1)
    → ((p : DictEntry → Bool) → IgnoresDistance p → count p t' ≡ count p t)
    → SameMap t t'
counts-SameMap t t' unique counts key key_size hash =
    value_in-same key key_size hash t t' (unique key key_size hash)
      (counts (for_key key key_size hash) (for_key-IgnoresDistance key key_size hash))
      λ value.
        counts (binding key key_size hash value) (binding-IgnoresDistance key key_size hash value)

module _ (n : ℕ) (d : Dictionary) (t : List DictEntry) (g : IsGrowing n d t) where
  pub remapped-IsGrowing : (r : Dictionary) → (a : Remapped n d t r) → IsGrowing n r a.table
  remapped-IsGrowing r a = record {
    mixed = a.mixed;
    remaps = ap (λ x. x.remaps) a.same ∙ g.remaps;
    iterators = ap (λ x. x.num_iterators) a.same ∙ g.iterators;
    unique = λ key key_size hash. omega (
      arith,
      g.unique key key_size hash,
      a.counts (for_key key key_size hash) (for_key-IgnoresDistance key key_size hash),
    );
    counted = ap (λ x. x.num_entries) a.same ∙ g.counted ∙ sym (a.counts (λ x. true) (λ x k. refl));
  }

  finished-IsWellFormed : d.remap_end ≡ none → IsWellFormed (record d { remaps = 0 }) t
  finished-IsWellFormed at = record {
    has = record { at = g.mixed.has.at; cells = g.mixed.has.cells };
    settled = record {
      remaps = refl;
      remap_end = at;
      cookies = g.mixed.cookies;
      iterators = g.iterators;
      bits = omega (arith, g.mixed.bits, g.mixed.few);
    };
    clustered = g.mixed.clustered;
    mapped = placed-IsMapped d.log2_buckets t g.mixed.clustered λ i bucket h full there.
        elim (g.mixed.placed i bucket h full there) [
          | inl new ↦ new ∙ ap (bucket_by_hash (slot t i).hash) (sym g.mixed.bits)
          | inr (before, old) ↦ absurd (let early = rw at at before in omega arith)
        ];
    unique = g.unique;
    counted = g.counted;
    small = g.mixed.small;
  }

-- Remap keeps the number of buckets.
pub remap-log2_buckets :
    (n : ℕ) (d : Dictionary) (t : List DictEntry)
    → IsGrowing n d t
    → Returns (λ r. r.log2_buckets ≡ d.log2_buckets) (remap d)
remap-log2_buckets n d t g =
    Returns-map (remap-Remapped n d t g.mixed g.iterators) λ r (r₀, a, cases). elim cases [
      | inl same ↦ ap (λ x. x.log2_buckets) same ∙ ap (λ x. x.log2_buckets) a.same
      | inr (same, at) ↦ ap (λ x. x.log2_buckets) same ∙ ap (λ x. x.log2_buckets) a.same
    ]

-- Remap of a growing dictionary returns without a fault and keeps the map: the dictionary is still
-- growing, or it is well-formed at the new size.
pub remap-refines :
    (n : ℕ) (d : Dictionary) (t : List DictEntry)
    → IsGrowing n d t
    → Returns
        (λ r. (t' : List DictEntry) × SameMap t t' × (IsGrowing n r t' ⊎ IsWellFormed r t'))
        (remap d)
remap-refines n d t g = Returns-map (remap-Remapped n d t g.mixed g.iterators) λ r (r₀, a, cases).
    let g₀ = remapped-IsGrowing n d t g r₀ a in
    (
      a.table,
      counts-SameMap t a.table g.unique a.counts,
      elim cases [
        | inl same ↦ inl (subst (λ x. IsGrowing n x a.table) (sym same) g₀)
        | inr (same, at) ↦ inr (
            subst (λ x. IsWellFormed x a.table) (sym same)
              (finished-IsWellFormed n r₀ a.table g₀ at))
      ],
    )
