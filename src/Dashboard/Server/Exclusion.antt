-- ===== src/Dashboard/Server/Exclusion.antt =====
-- main.go: whatever requests arrive and end, and in whatever order, one demonstration runs at most.
use cost_risk_aware_gitops_p.Prelude.{
  ◌≡◌, refl, sym, ap, ◌∙◌, ◌⊎◌, inl, inr, true, false, not, str_eq, List, [], ◌∷◌, ◌++◌, arith,
}
use cost_risk_aware_gitops_p.Dashboard.Server.{
  Demo, drift, load, demo_name, Server, new_server, Begun, conflict, streaming, is_busy, begin,
  finish,
}

-- The server, and the requests whose demonstration is running.
pub record System : Type 0 where
  pub server : Server
  pub runs : List Demo

abbrev pub idle : System
idle = record { server = new_server; runs = [] }

abbrev met : Demo → System → Begun × Server → System
met d s (conflict text, server) = record { server = server; runs = s.runs }
met d s (streaming, server) = record { server = server; runs = d ∷ s.runs }

-- A request arrives, or one that is running ends.
pub data Step (s : System) : System → Type 0 where
  arrives : (d : Demo) → Step s (met d s (begin d s.server))
  ends :
      (before : List Demo) (d : Demo) (after : List Demo)
      → s.runs ≡ before ++ d ∷ after
      → Step s (record { server = finish s.server; runs = before ++ after })

pub data Reach : System → Type 0 where
  start : Reach idle
  next : {s t : System} → Reach s → Step s t → Reach t

-- No demonstration runs and none is recorded, or one does, which is the one that is recorded.
abbrev pub IsExclusive : System → Type 0
IsExclusive s =
    ((s.runs ≡ []) × (s.server.running ≡ ""))
    ⊎ ((d : Demo) × (s.runs ≡ d ∷ []) × (s.server.running ≡ demo_name d))

is_busy-named : (d : Demo) (srv : Server) → srv.running ≡ demo_name d → is_busy srv ≡ true
is_busy-named drift srv e = ap (λ r. not (str_eq r "")) e
is_busy-named load srv e = ap (λ r. not (str_eq r "")) e

is_busy-idle : (srv : Server) → srv.running ≡ "" → is_busy srv ≡ false
is_busy-idle srv e = ap (λ r. not (str_eq r "")) e

arrives-IsExclusive :
    (d : Demo) (s : System) → IsExclusive s → IsExclusive (met d s (begin d s.server))
unfolding begin
arrives-IsExclusive d s (inl (none_runs, e)) =
    rw (is_busy-idle s.server e) (inr (d, ap (λ r. d ∷ r) none_runs, refl))
arrives-IsExclusive d s (inr (k, one_runs, e)) =
    rw (is_busy-named k s.server e) (inr (k, one_runs, e))

-- One run ends: none is left.
ends-nil :
    (before : List Demo) (d : Demo) (after : List Demo) (k : Demo)
    → k ∷ [] ≡ before ++ d ∷ after
    → before ++ after ≡ []
ends-nil [] d [] k e = refl
ends-nil [] d (x ∷ after) k e = ground arith
ends-nil (x ∷ []) d after k e = ground arith
ends-nil (x ∷ y ∷ before) d after k e = ground arith

ends-empty :
    {A : Type 0} (before : List Demo) (d : Demo) (after : List Demo) → [] ≡ before ++ d ∷ after → A
ends-empty [] d after e = ground arith
ends-empty (x ∷ before) d after e = ground arith

Step-IsExclusive : {s t : System} → Step s t → IsExclusive s → IsExclusive t
unfolding finish
Step-IsExclusive {s} (arrives d) x = arrives-IsExclusive d s x
Step-IsExclusive (ends before d after e) (inl (none_runs, _)) =
    ends-empty before d after (sym none_runs ∙ e)
Step-IsExclusive (ends before d after e) (inr (k, one_runs, _)) =
    inl (ends-nil before d after k (sym one_runs ∙ e), refl)

-- However requests arrive and end, at any time no demonstration runs and none is recorded as running,
-- or exactly one runs, and its name is what is recorded.
pub Reach-IsExclusive : {s : System} → Reach s → IsExclusive s
Reach-IsExclusive start = inl (refl, refl)
Reach-IsExclusive (next r step) = Step-IsExclusive step (Reach-IsExclusive r)
