-- ===== src/Cares/Tests.antt =====
-- get_ttl of c-ares/cares_ttl.c with a name that takes as many bytes as its first byte says, and one
-- byte more.
use zeek_snippets.Prelude.{
  ℕ, suc, ◌+◌, ◌%◌, ◌^◌, ◌≡◌, refl, List, [], ◌∷◌, length, get_or, leb, if◌then◌else◌,
}
use zeek_snippets.Run.{ok, fault, out_of_bounds}
use zeek_snippets.Cares.{Ares, first_record, get_ttl}

abbrev toy : Ares
toy = record {
  expand_name = λ p abuf. record { status = 0; len = suc (get_or abuf p 0) };
  rr_ttl = λ abuf p.
      if leb (p + 8) (length abuf)
      then ok (get_or abuf (p + 7) 0 % 2 ^ 32)
      else fault out_of_bounds;
  ebadresp = 10;
  hfixedsz = 12;
  qfixedsz = 4;
  rrfixedsz = 10;
}

-- The root as the name of the question, and a record whose name takes three bytes; its fixed part is
-- cut off.
abbrev cut : List ℕ
cut =
    0 ∷ 0 ∷ 0 ∷ 0 ∷ 0 ∷ 0 ∷ 0 ∷ 0 ∷ 0 ∷ 0 ∷ 0 ∷ 0 ∷ 0 ∷ 0 ∷ 1 ∷ 0 ∷ 1 ∷ 2 ∷ 65 ∷ 66 ∷ 0 ∷ 1 ∷ 0 ∷ 1
    ∷ 0 ∷ 0 ∷ 0 ∷ []

cut_overruns : get_ttl toy cut ≡ fault out_of_bounds
unfolding get_ttl first_record get_or
cut_overruns = refl
