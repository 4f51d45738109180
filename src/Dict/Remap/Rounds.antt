-- ===== src/Dict/Remap/Rounds.antt =====
-- Remap() of dict/OpenDict.cc: its rounds move entries of a dictionary between two sizes.
use zeek_snippets.Prelude.{
  ℕ, zero, suc, ◌+◌, ◌<◌, ◌≡◌, ◌⊎◌, refl, sym, subst, ap, ◌∙◌, Bool, true, false, List, Option,
  none, some, length, arith, ◌==◌, if◌then◌else◌, Bool-cases, Option-cases, inl, inr,
}
use zeek_snippets.Run.{ok, ◌>>=◌, Returns, returns, Returns-if, Returns-map, Returns-bind}
use zeek_snippets.Dict.{DictEntry, Dictionary, is_empty}
use zeek_snippets.Dict.Math.{bucket_by_hash}
use zeek_snippets.Dict.Cluster.Order.{slot, IsFull, entry_at-slot}
use zeek_snippets.Dict.Relocate.Count.{count, IgnoresDistance}
use zeek_snippets.Dict.Remap.{moves_at, remap_down, remap_loop, finish_remap, remap}
use zeek_snippets.Dict.Remap.Mixed.{unmapped, IsMixed}
use zeek_snippets.Dict.Remap.Moved.{Moved, remap_at-Moved}

-- The dictionary `r` is `d` with a mixed table of the entries of `t` and its own end of the part that
-- is left to remap.
pub record Remapped (n : ℕ) (d : Dictionary) (t : List DictEntry) (r : Dictionary) : Type 0 where
  pub table : List DictEntry
  pub end : Option ℕ
  pub same : r ≡ record d { table = some table; remap_end = end }
  pub mixed : IsMixed n r table
  pub counts : (p : DictEntry → Bool) → IgnoresDistance p → count p table ≡ count p t

remapped_self : (n : ℕ) (d : Dictionary) (t : List DictEntry) → IsMixed n d t → Remapped n d t d
remapped_self n d t m = record {
  table = t;
  end = d.remap_end;
  same = ap (λ x. record d { table = x }) m.has.at;
  mixed = m;
  counts = λ p ignores. refl;
}

remapped_trans :
    (n : ℕ) (d r s : Dictionary) (t : List DictEntry)
    → (a : Remapped n d t r) → Remapped n r a.table s
    → Remapped n d t s
remapped_trans n d r s t a b = record {
  table = b.table;
  end = b.end;
  same =
      b.same
      ∙ ap {A = Dictionary} (λ x. record x { table = some b.table; remap_end = b.end }) a.same;
  mixed = b.mixed;
  counts = λ p ignores. b.counts p ignores ∙ a.counts p ignores;
}

-- Where no entry at the end is out of place, the end goes back by one.
lowered :
    (n : ℕ) (d : Dictionary) (t : List DictEntry) (end : ℕ) (before : Option ℕ)
    → IsMixed n d t
    → d.remap_end ≡ some end
    → unmapped before ≡ end
    → (IsFull t end → end ≡ bucket_by_hash (slot t end).hash (suc n) + (slot t end).distance)
    → Remapped n d t (record d { remap_end = before })
lowered n d t end before m at low home = record {
  table = t;
  end = before;
  same = ap (λ x. record d { table = x; remap_end = before }) m.has.at;
  mixed = record {
    has = record { at = m.has.at; cells = m.has.cells };
    bits = m.bits;
    few = m.few;
    clustered = m.clustered;
    placed = λ i bucket h full there. elim (m.placed i bucket h full there) [
      | inl new ↦ inl new
      | inr (early, old) ↦ elim (Bool-cases (i == end)) [
        | inr other ↦ inr (ground (arith, early, at, other, low), old)
        | inl here ↦
            let same : i ≡ end = ground arith in
            let back = home (subst (IsFull t) same full) in
            inl (let back' = rw (sym same) at back in omega (arith, there))
      ]
    ];
    room = m.room;
    within = let w = rw at at m.within in omega (arith, low);
    small = m.small;
    cookies = m.cookies;
  };
  counts = λ p ignores. refl;
}

-- One try: either an entry moved, or there is none at `end` that is out of place.
record Tried (n : ℕ) (d : Dictionary) (t : List DictEntry) (end : ℕ) (r : Bool × Dictionary)
    : Type 0 where
  pub step : Remapped n d t r.1
  pub still : r.1.remap_end ≡ d.remap_end
  pub home :
      r.0 ≡ false
      → IsFull step.table end
      → end ≡ bucket_by_hash (slot step.table end).hash (suc n) + (slot step.table end).distance

abbrev pub moved-Remapped :
    (n : ℕ) (d : Dictionary) (t : List DictEntry) (p : ℕ) (r : Option ℕ × Dictionary)
    → Moved n d t p r
    → Remapped n d t r.1
moved-Remapped n d t p r a = record {
  table = a.table;
  end = d.remap_end;
  same = a.same;
  mixed = subst (λ x. IsMixed n x a.table) (sym a.same) a.mixed;
  counts = a.counts;
}

remap_at-Tried :
    (n : ℕ) (d : Dictionary) (t : List DictEntry) (end : ℕ) (moved : Option ℕ) (d₁ : Dictionary)
    → Moved n d t end (moved, d₁)
    → Tried n d t end (elim moved [ none ↦ (false, d₁) | some _ ↦ (true, d₁) ])
remap_at-Tried n d t end none d₁ a = record {
  step = moved-Remapped n d t end (none, d₁) a;
  still = ap (λ x. x.remap_end) a.same;
  home = λ off full.
      let (same, at) = a.stays refl in
      subst (λ x. end ≡ bucket_by_hash (slot x end).hash (suc n) + (slot x end).distance) (sym same)
        at;
}
remap_at-Tried n d t end (some q) d₁ a = record {
  step = moved-Remapped n d t end (some q, d₁) a;
  still = ap (λ x. x.remap_end) a.same;
  home = λ off full. cc;
}

moves_at-Tried :
    (n : ℕ) (d : Dictionary) (t : List DictEntry) (end : ℕ)
    → IsMixed n d t
    → d.remap_end ≡ some end
    → Returns (Tried n d t end) (moves_at d end)
unfolding moves_at
moves_at-Tried n d t end m at =
    let inside : end < length t = (let w = rw at at m.within in omega arith) in
    rw (entry_at-slot d t end m.has inside, ◌>>=◌)
      (Returns-if (is_empty (slot t end))
        (λ clear. returns (record {
          step = remapped_self n d t m;
          still = refl;
          home = λ off full. absurd (ground (arith, clear, full));
        }))
        λ full.
          Returns-bind (remap_at-Moved n d t end m inside full)
            λ (moved, d₁) a. returns (remap_at-Tried n d t end moved d₁ a))

-- The rounds either move an entry or reach the front of the table.
abbrev Down : ℕ → Dictionary → List DictEntry → Bool × Dictionary → Type 0
Down n d t r = Remapped n d t r.1 × (r.0 ≡ false → r.1.remap_end ≡ none)

remap_down-Down :
    (end n : ℕ) (d : Dictionary) (t : List DictEntry)
    → IsMixed n d t
    → d.remap_end ≡ some end
    → Returns (Down n d t) (remap_down end d)
unfolding remap_down
remap_down-Down zero n d t m at = Returns-bind (moves_at-Tried n d t 0 m at) λ (moved, d₁) a.
    elim (Bool-cases moved) [
      | inl on ↦ rw on (returns (a.step, λ off. cc))
      | inr off ↦ rw off (
          returns (
            remapped_trans n d d₁ _ t a.step
                (lowered n d₁ a.step.table 0 none a.step.mixed (a.still ∙ at) refl (a.home off)),
            λ end. refl,
          ))
    ]
remap_down-Down (suc end) n d t m at =
    Returns-bind (moves_at-Tried n d t (suc end) m at) λ (moved, d₁) a. elim (Bool-cases moved) [
      | inl on ↦ rw on (returns (a.step, λ off. cc))
      | inr off ↦
          let b =
            lowered n d₁ a.step.table (suc end) (some end) a.step.mixed (a.still ∙ at) refl
              (a.home off) in
          rw off (
            Returns-map
              (remap_down-Down end n (record d₁ { remap_end = some end }) b.table b.mixed refl)
              λ (moved', d₂) (c, stop). (
                remapped_trans n d d₁ d₂ t a.step (remapped_trans n d₁ _ d₂ a.step.table b c),
                stop,
              ))
    ]

module _ (left : ℕ) (d : Dictionary) where
  remap_loop-none : d.remap_end ≡ none → remap_loop (suc left) d ≡ ok d
  unfolding remap_loop
  remap_loop-none at = rw at refl

  remap_loop-some :
      (end : ℕ)
      → d.remap_end ≡ some end
      → remap_loop (suc left) d
        ≡ (remap_down end d >>= λ (moved, d₁). if moved then remap_loop left d₁ else ok d₁)
  unfolding remap_loop
  remap_loop-some end at = rw at refl

remap_loop-Remapped :
    (left n : ℕ) (d : Dictionary) (t : List DictEntry)
    → IsMixed n d t
    → Returns (Remapped n d t) (remap_loop left d)
remap_loop-Remapped zero n d t m = unfold remap_loop in returns (remapped_self n d t m)
remap_loop-Remapped (suc left) n d t m = elim (Option-cases d.remap_end) [
  | inl at ↦ rw (remap_loop-none left d at) (returns (remapped_self n d t m))
  | inr (end, at) ↦ rw (remap_loop-some left d end at) (
      Returns-bind (remap_down-Down end n d t m at) λ (moved, d₁) (a, stop).
        Returns-if moved
          (λ on.
            Returns-map (remap_loop-Remapped left n d₁ a.table a.mixed)
              λ d₂ b. remapped_trans n d d₁ d₂ t a b)
          λ off. returns a)
]

remap-alone :
    (d : Dictionary)
    → d.num_iterators ≡ 0
    → remap d ≡ (remap_loop 16 d >>= λ d₁. ok (finish_remap d₁))
unfolding remap
remap-alone d alone = rw alone refl

finish_remap-none : (d : Dictionary) → d.remap_end ≡ none → finish_remap d ≡ record d { remaps = 0 }
unfolding finish_remap
finish_remap-none d at = rw at refl

finish_remap-some : (d : Dictionary) (end : ℕ) → d.remap_end ≡ some end → finish_remap d ≡ d
unfolding finish_remap
finish_remap-some d end at = rw at refl

-- Remap in a mixed dictionary, while no iteration goes on, returns without a fault: the dictionary
-- has the same entries, and either a part left to remap, or none and no remap pending.
pub remap-Remapped :
    (n : ℕ) (d : Dictionary) (t : List DictEntry)
    → IsMixed n d t
    → d.num_iterators ≡ 0
    → Returns
        (λ r.
          (r₀ : Dictionary) × Remapped n d t r₀
          × ((r ≡ r₀) ⊎ ((r ≡ record r₀ { remaps = 0 }) × (r₀.remap_end ≡ none))))
        (remap d)
remap-Remapped n d t m alone = rw (remap-alone d alone) (
    Returns-bind (remap_loop-Remapped 16 n d t m) λ r₀ a. returns (
      r₀,
      a,
      elim (Option-cases r₀.remap_end) [
        | inl at ↦ inr (finish_remap-none r₀ at, at)
        | inr (end, at) ↦ inl (finish_remap-some r₀ end at)
      ],
    ))
