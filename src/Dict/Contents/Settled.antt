-- ===== src/Dict/Contents/Settled.antt =====
-- Steps of dict/OpenDict.cc that do nothing where no remap and no iteration is going on.
use zeek_snippets.Prelude.{ℕ, ◌≡◌, refl, none, true}
use zeek_snippets.Run.{Run, ok}
use zeek_snippets.Dict.{Dictionary, IterCookie}
use zeek_snippets.Dict.Update.{adjust_cookies, cover, only_robust}

pub cover_still : (d : Dictionary) (i last : ℕ) → d.remap_end ≡ none → cover d i last ≡ d
unfolding cover
cover_still d i last off = rw off refl

pub adjust_cookies_still :
    (f : IterCookie → Run IterCookie) (d : Dictionary)
    → d.cookies ≡ none
    → adjust_cookies f d ≡ ok d
unfolding adjust_cookies
adjust_cookies_still f d off = rw off refl

pub only_robust_still : (d : Dictionary) → d.num_iterators ≡ 0 → only_robust d ≡ true
unfolding only_robust
only_robust_still d alone = rw alone refl
