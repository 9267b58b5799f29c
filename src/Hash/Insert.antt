-- ===== src/Hash/Insert.antt =====
-- A new key in a table of util/hashmap.c: the entry, the key behind those in the buffer, and the larger
-- table where this one is too full.
use fql.Prelude.{
  ℕ, suc, ◌+◌, ◌*◌, ◌^◌, ◌<◌, ◌≤◌, Option, none, some, List, [], ◌∷◌, ◌++◌, ◌≡◌, refl, ◌∙◌, sym, ap,
  ◌≢◌, ◌⊎◌, inl, inr, ◌↔◌, length, get_or, set, arith, length-append, length-set,
}
use mathlib.Core.Path.{subst}
use fql.Text.{Text}
use fql.Hash.{Entry, HashMap, add_new}
use fql.Hash.Probe.{count-set, Placed}
use fql.Hash.Keys.{Present, Present-set, Good-set, Good-rekey}
use fql.Hash.Digest.{hash_key}
use fql.Hash.Table.{key_at, hash_of, Table, grown-Grown}
use fql.Text.Segments.{read_at-append, read_at-end}

-- The entry that a new key gets.
abbrev pub new_entry : Text → Text → ℕ → ℕ → Entry
new_entry keybuf k hash val_idx = record {
  val_idx = val_idx;
  key_idx = length keybuf;
  key_len = length k;
  hash = hash;
}

module _ {ℓ} {A : Type ℓ} (self : HashMap A) (k : Text) (i val_idx : ℕ) (value : A) where
  -- The table after `add_new`.
  pub record Added (out : List (Option Entry)) : Type ℓ where
    pub runs :
        add_new self k (hash_key self.props k) i val_idx value
        ≡ some (record self {
          values = self.values ++ (value ∷ []);
          entries = out;
          keybuf = self.keybuf ++ k;
        })
    pub table : Table self.props (self.keybuf ++ k) out (suc (length self.values))
    pub members :
        (e : Entry)
        → Present out e
          ↔ ((new_entry self.keybuf k (hash_key self.props k) val_idx ≡ e) ⊎ Present self.entries e)
    pub wide : (b : ℕ) → length self.entries ≤ b → 3 * length self.values + 4 ≤ b → length out ≤ b

  pub add_new-Added :
      Table self.props self.keybuf self.entries (length self.values)
      → get_or self.entries i none ≡ none
      → Placed self.entries (hash_key self.props k) i
      → i < length self.entries
      → ((e : Entry) → Present self.entries e → key_at self.keybuf e ≢ k)
      → length self.entries < 2 ^ 63
      → (out : List (Option Entry)) × Added out
  unfolding add_new
  add_new-Added t free p lt absent small =
      let h = hash_key self.props k in
      let new = new_entry self.keybuf k h val_idx in
      let es = set self.entries i (some new) in
      let size = length (self.values ++ (value ∷ [])) in
      let now : size ≡ suc (length self.values) =
        omega (arith, length-append self.values (value ∷ [])) in
      let wide = length-set self.entries i (some new) in
      let one_more = count-set self.entries i new lt free in
      let kept_keys : (e : Entry)
          → Present self.entries e
          → key_at (self.keybuf ++ k) e ≡ key_at self.keybuf e =
        λ e q. read_at-append self.keybuf k e.key_idx e.key_len (t.inbuf e q) in
      let its_key = read_at-end self.keybuf k in
      let before =
        Good-rekey hash_of (hash_key self.props) (key_at self.keybuf) (key_at (self.keybuf ++ k))
          self.entries (λ j e u. kept_keys e (j, u)) t.good in
      let g =
        Good-set hash_of (hash_key self.props) (key_at (self.keybuf ++ k)) self.entries i new before
          lt free p (ap (hash_key self.props) (sym its_key))
          (λ j f u eq. absent f (j, u) (sym (kept_keys f (j, u)) ∙ eq ∙ its_key)) in
      let (out, grows, m) =
        grown-Grown (hash_key self.props) (key_at (self.keybuf ++ k)) es size g
          (omega (arith, t.sized)) (omega (arith, t.room)) (omega arith) (omega arith) in
      (
        out,
        record {
          runs = rw grows refl;
          table = record {
            good = m.good;
            inbuf = λ e q. elim ((Present-set self.entries i new e lt free).0 ((m.members e).0 q)) [
              | inl is ↦
                  subst (λ (x : Entry). x.key_idx + x.key_len ≤ length (self.keybuf ++ k)) is
                    (omega (arith, length-append self.keybuf k))
              | inr was ↦ omega (arith, t.inbuf e was, length-append self.keybuf k)
            ];
            room = m.room;
            sized = omega (arith, m.total, t.sized);
          };
          members = λ e. (
            λ q. (Present-set self.entries i new e lt free).0 ((m.members e).0 q),
            λ q. (m.members e).1 ((Present-set self.entries i new e lt free).1 q),
          );
          wide = λ b le more. m.wide b (omega arith) (omega arith);
        },
      )
