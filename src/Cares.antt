-- ===== src/Cares.antt =====
-- c-ares/cares_ttl.c: get_ttl, which takes the TTL of the first record of a DNS response. A pointer
-- into the response `abuf` is its offset. The c-ares library is not modelled: ares_expand_name, the
-- macro DNS_RR_TTL and the sizes of arpa/nameser.h are parameters.
pub mod Outcome
pub mod Tests
use zeek_snippets.Prelude.{
  ℕ, ◌+◌, ◌-◌, ◌^◌, ◌≤◌, ◌<◌, ◌≡◌, ◌≢◌, ◌⊎◌, List, Option, none, some, length, ltb, leb, ◌==◌,
  if◌then◌else◌,
}
use zeek_snippets.Run.{Run, ok, fault, out_of_bounds, ◌>>=◌}

-- What ares_expand_name gives: its status, and the length of the encoded name.
pub record Expanded : Type 0 where
  pub status : ℕ
  pub len : ℕ

-- The parts of c-ares that get_ttl uses. `expand_name` has the offset and the response, `rr_ttl` the
-- response and the offset, and gives 32 bits without a sign.
pub record Ares : Type 0 where
  pub expand_name : ℕ → List ℕ → Expanded
  pub rr_ttl : List ℕ → ℕ → Run ℕ
  pub ebadresp : ℕ
  pub hfixedsz : ℕ
  pub qfixedsz : ℕ
  pub rrfixedsz : ℕ

-- An `int`; `negsuc n` is -(n + 1).
pub data ℤ : Type 0 where
  pos negsuc : ℕ → ℤ

-- The conversion of 32 bits without a sign to an `int`.
unfoldable pub to_int : ℕ → ℤ
to_int v = if ltb v (2 ^ 31) then pos v else negsuc (2 ^ 32 - 1 - v)

-- What get_ttl returns, what it writes to `*ttl`, if anything, and how many of the strings that
-- ares_expand_name allocates it does not free.
pub record Ttl : Type 0 where
  pub status : ℕ
  pub ttl : Option ℤ
  pub held : ℕ

-- The status of a failure, with `held` strings left.
unfoldable pub failed : ℕ → ℕ → Run Ttl
failed status held = ok (record { status = status; ttl = none; held = held })

-- From the first record, at `aptr`, on.
unfoldable pub first_record : Ares → List ℕ → ℕ → Run Ttl
first_record a abuf aptr =
    let name = a.expand_name aptr abuf in
    let read : Run Ttl = (do
      ttl ← a.rr_ttl abuf (aptr + name.len)
      ok (record { status = name.status; ttl = some (to_int ttl); held = 0 })) in
    if name.status == 0
    then (if ltb (length abuf) (aptr + a.rrfixedsz) then failed a.ebadresp 1 else read)
    else failed name.status 0

-- get_ttl; ARES_SUCCESS is 0.
unfoldable pub get_ttl : Ares → List ℕ → Run Ttl
get_ttl a abuf =
    let aptr = a.hfixedsz in
    let name = a.expand_name aptr abuf in
    if name.status == 0
    then (if ltb (length abuf) (aptr + (name.len + a.qfixedsz))
        then failed a.ebadresp 1
        else first_record a abuf (aptr + (name.len + a.qfixedsz)))
    else failed name.status 0

-- DNS_RR_TTL reads the bytes 4 to 7 behind its pointer, and no others, and gives 32 bits.
pub record ReadsTtl (a : Ares) : Type 0 where
  pub value : List ℕ → ℕ → ℕ
  pub reads :
      (abuf : List ℕ) (p : ℕ)
      → a.rr_ttl abuf p
        ≡ (if leb (p + 8) (length abuf) then ok (value abuf p) else fault out_of_bounds)
  pub small : (abuf : List ℕ) (p : ℕ) → value abuf p < 2 ^ 32

module _ (a : Ares) (abuf : List ℕ) where
  abbrev pub question : Expanded
  question = a.expand_name a.hfixedsz abuf

  -- Where the first record starts, and its name.
  abbrev pub record_at : ℕ
  record_at = a.hfixedsz + (question.len + a.qfixedsz)

  abbrev pub record_name : Expanded
  record_name = a.expand_name record_at abuf

  -- The name of the question is read, but the response ends before the question does; or the name of
  -- the first record is read too, but the response ends within the fixed part of a record from the
  -- start of the first one on.
  abbrev pub IsShort : Type 0
  IsShort =
      (question.status ≡ 0)
      × ((length abuf < record_at)
          ⊎ ((record_at ≤ length abuf)
              × (record_name.status ≡ 0)
              × (length abuf < record_at + a.rrfixedsz)))

  -- Both names are read, and the response goes on for the fixed part of a record from the start of
  -- the first one on, but not up to the end of its TTL, which stands behind the name.
  abbrev pub IsCutOff : Type 0
  IsCutOff =
      (question.status ≡ 0)
      × (record_name.status ≡ 0)
      × (record_at ≤ length abuf)
      × (record_at + a.rrfixedsz ≤ length abuf)
      × (length abuf < record_at + record_name.len + 8)

  -- A success has the TTL of the first record, and both names are freed; a failure leaves `*ttl`, and
  -- a name exactly if the response is too short.
  pub record IsRight (r : ReadsTtl a) (s : Ttl) : Type 0 where
    pub success :
        s.status ≡ 0
        → (s.held ≡ 0) × (s.ttl ≡ some (to_int (r.value abuf (record_at + record_name.len))))
    pub failure : s.status ≢ 0 → s.ttl ≡ none
    pub leaks : IsShort → s.held ≡ 1
    pub frees : s.held ≢ 0 → IsShort
