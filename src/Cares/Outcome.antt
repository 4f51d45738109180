-- ===== src/Cares/Outcome.antt =====
-- What get_ttl of c-ares/cares_ttl.c does with any response.
use zeek_snippets.Prelude.{ℕ, ◌+◌, ◌≢◌, List, some}
use zeek_snippets.Run.{Run, ok, fault, out_of_bounds}
use zeek_snippets.Cares.{
  Ares, Ttl, ReadsTtl, IsShort, IsCutOff, record_at, record_name, failed, to_int,
}

-- How get_ttl ends: it fails, with a name left if the response is too short, or takes the TTL from the
-- first record if that is not cut off, or reads outside of the response.
data Outcome (a : Ares) (abuf : List ℕ) (r : ReadsTtl a) : Run Ttl → Type 0 where
  refused :
      {status : ℕ}
      → status ≢ 0
      → ¬ (IsShort a abuf)
      → ¬ (IsCutOff a abuf)
      → Outcome a abuf r (failed status 0)
  short : IsShort a abuf → ¬ (IsCutOff a abuf) → Outcome a abuf r (failed a.ebadresp 1)
  taken :
      ¬ (IsShort a abuf)
      → ¬ (IsCutOff a abuf)
      → Outcome a abuf r (
          ok (record {
            status = 0;
            ttl = some (to_int (r.value abuf (record_at a abuf + (record_name a abuf).len)));
            held = 0;
          }))
  overrun : IsCutOff a abuf → Outcome a abuf r (fault out_of_bounds)
