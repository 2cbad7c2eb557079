-- ===== src/Report/Showing.antt =====
-- report.go: texts that stand in a text that is written piece by piece.
use mathlib.Core.List.{Memᴰ}
use mathlib.Core.List.Memᴰ
use Prim.Native.String
use Prim.Native.String.append
use text.Mathlib.TextLemmas.{append-nil, append_assoc}
use cost_risk_aware_gitops_p.Prelude.{
  ◌≡◌, refl, sym, ap, ◌∙◌, String, false, is_empty, List, [], ◌∷◌, concat, join,
}
use cost_risk_aware_gitops_p.Report.Sections.{listed}

-- A text stands in another.
pub record Shows (whole part : String) : Type 0 where
  pub before : String
  pub after : String
  pub split : whole ≡ String.◌++◌ before (String.◌++◌ part after)

pub Shows-trans : {a b c : String} → Shows a b → Shows b c → Shows a c
Shows-trans {c} x y = record {
  before = String.◌++◌ x.before y.before;
  after = String.◌++◌ y.after x.after;
  split =
      x.split
      ∙ ap (λ m. String.◌++◌ x.before (String.◌++◌ m x.after)) y.split
      ∙ ap (λ m. String.◌++◌ x.before m)
          (append_assoc y.before (String.◌++◌ c y.after) x.after
            ∙ ap (λ m. String.◌++◌ y.before m) (append_assoc c y.after x.after))
      ∙ sym (append_assoc x.before y.before (String.◌++◌ c (String.◌++◌ y.after x.after)));
}

pub Shows-later :
    (x : String) {rest part : String} → Shows rest part → Shows (String.◌++◌ x rest) part
Shows-later x {part} s = record {
  before = String.◌++◌ x s.before;
  after = s.after;
  split =
      ap (λ m. String.◌++◌ x m) s.split ∙ sym (append_assoc x s.before (String.◌++◌ part s.after));
}

pub Shows-first : {s x : String} (rest : String) → s ≡ x → Shows (String.◌++◌ x rest) s
Shows-first rest e = record {
  before = "";
  after = rest;
  split = ap (λ m. String.◌++◌ m rest) (sym e) ∙ sym (append.nil _);
}

pub Shows_of_mem : {s : String} {ss : List String} → Memᴰ s ss → Shows (concat ss) s
unfolding concat
Shows_of_mem (Memᴰ.head {xs} e) = Shows-first (concat xs) e
Shows_of_mem (Memᴰ.tail {x} m) = Shows-later x (Shows_of_mem m)

pub Shows-join : (sep : String) {s : String} (ss : List String) → Memᴰ s ss → Shows (join sep ss) s
unfolding join
Shows-join sep [] m = elim m [ ]
Shows-join sep (x ∷ []) (Memᴰ.head e) = record {
  before = "";
  after = "";
  split = sym e ∙ sym (append-nil _) ∙ sym (append.nil _);
}
Shows-join sep (x ∷ []) (Memᴰ.tail m) = elim m [ ]
Shows-join sep (x ∷ y ∷ ss) (Memᴰ.head e) = Shows-first (String.◌++◌ sep (join sep (y ∷ ss))) e
Shows-join sep (x ∷ y ∷ ss) (Memᴰ.tail m) =
    Shows-later x (Shows-later sep (Shows-join sep (y ∷ ss) m))

pub listed_mem :
    {l : String} (above below : String) {ls : List String}
    → Memᴰ l ls
    → Memᴰ l (listed above below ls)
unfolding listed
listed_mem above below (Memᴰ.head e) = Memᴰ.tail (Memᴰ.head e)
listed_mem above below (Memᴰ.tail m) = Memᴰ.tail (Memᴰ.tail (Memᴰ.append_left (below ∷ []) m))

pub is_empty_of_mem {ℓ} : {A : Type ℓ} {a : A} {xs : List A} → Memᴰ a xs → is_empty xs ≡ false
is_empty_of_mem (Memᴰ.head e) = refl
is_empty_of_mem (Memᴰ.tail m) = refl
