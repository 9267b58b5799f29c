-- ===== src/Hash/Composite/Tests.antt =====
-- A map with keys of two views: the bytes of the views alone do not make the key.
use fql.Prelude.{ℕ, false, none, some, List, [], ◌∷◌, ◌≡◌, refl, arith, replicate}
use fql.Status.{◌>>=◌}
use fql.Text.{Text}
use fql.Hash.{Entry, Props, probe, get_hash, hash_all}
use fql.Hash.Probe.{get_or-replicate}
use fql.Hash.Keys.{Present}
use fql.Hash.Table.{Good-free}
use fql.Hash.Composite.{CompositeMap, hash_views, composite_new, compositemap_set, compositemap_get}
use fql.Hash.Composite.Keylocs.{digest}
use fql.Hash.Composite.Lookup.{key_in, IsValid, Written}
use fql.Hash.Composite.Write.{compositemap_set-Written}

abbrev plain : Props
plain = record { nocase = false; rtrim = false }

abbrev ab_c : List Text
ab_c = (b'a' ∷ b'b' ∷ []) ∷ (b'c' ∷ []) ∷ []

abbrev a_bc : List Text
a_bc = (b'a' ∷ []) ∷ (b'b' ∷ b'c' ∷ []) ∷ []

abbrev start : CompositeMap ℕ
start = record {
  table = record { values = []; entries = replicate 4 none; keybuf = []; props = plain };
  keys = [];
}

start-IsValid : IsValid start
start-IsValid =
    let none_there : (e : Entry) → ¬ Present (replicate 4 none) e =
      λ e (i, used). let free = get_or-replicate {E = Entry} 4 i in cc in
    record {
      good = Good-free (digest plain) (key_in [] []) 4;
      inkeys = λ e q. absurd (none_there e q);
      inbuf = tt;
      room = omega arith;
      sized = omega arith;
      vals = λ e q. absurd (none_there e q);
      apart = λ e f q. absurd (none_there e q);
    }

-- Both keys are written, and the first is read back.
two_run :
    (compositemap_set start ab_c 7 >>= λ m.
    compositemap_set m a_bc 8 >>= λ m'. compositemap_get m' ab_c)
    ≡ some (some 7)
unfolding compositemap_set compositemap_get composite_new hash_views get_hash hash_all probe
two_run = refl

compositemap_set-Written_example :
    (m' : CompositeMap ℕ) × (compositemap_set start ab_c 7 ≡ some m') × Written start ab_c 7 m'
compositemap_set-Written_example = compositemap_set-Written start ab_c 7 start-IsValid (omega arith)
