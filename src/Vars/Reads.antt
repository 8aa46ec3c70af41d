-- ===== src/Vars/Reads.antt =====
-- What a request reads from a table that was built: src/vars.rs from `build_layered` to `VarScope::get`.
use hypershunt.Prelude.{ℕ, List, [], ◌∷◌, length}
use hypershunt.Prelude.Text.{Text}
use hypershunt.Prelude.Result.{Result, ok, ◌>>=◌}
use hypershunt.Headers.{RequestContext}
use hypershunt.Vars.Defs.{RegexOps, VarTable}
use hypershunt.Vars.Values.{Slots, scope_get}

module _ {Regex : Type 0} (R : RegexOps Regex) (table : VarTable Regex) (ctx : RequestContext) where
  -- The reads of a request, one after the other.
  unfoldable pub read_all : List ℕ → Slots → Result (Unit {0}) (List Text)
  unfolding scope_get
  read_all [] slots = ok []
  read_all (id ∷ ids) slots = scope_get R table (length table.defs) ctx id slots >>= λ p.
      read_all ids (p.1) >>= λ vs. ok (p.0 ∷ vs)
