-- ===== src/Cricket/Roles.antt =====
-- apps/epl-gameplay: at every stored table one player bats and the other bowls.
use empire_backend.Base.{
  ℕ, zero, suc, ◌≡◌, refl, Option, none, some, List, [], ◌∷◌, map, ◌==◌, set, get_elem?, Bool-cases,
  inl, inr, sym, ◌∙◌, ap, subst,
}
use mathlib.Core.Option.{some-injective}
use empire_backend.Base.Results.{ok}
use empire_backend.Base.Actions.{Action}
use empire_backend.Base.Keeping.{Keeps, Always}
use empire_backend.Cricket.{
  Player, Table, World, found, retrieve_game_table, store_game_table, store_and_cache,
}
use empire_backend.Cricket.Handlers.{other_role}

-- Two players, one of each role.
pub record IsTwoSided (users : List Player) : Type 0 where
  pub first : Player
  pub second : Player
  pub both : users ≡ first ∷ second ∷ []
  pub sides : second.role ≡ other_role first.role

unfoldable pub IsFair : World → Type 0
IsFair w = (table_id : ℕ) (t : Table) → w.tables table_id ≡ some t → IsTwoSided t.users

-- A change of the players that keeps the roles, or swaps them, keeps the two sides.
pub IsTwoSided-map :
    (f : Player → Player) (users : List Player)
    → ((p q : Player) → q.role ≡ other_role p.role → (f q).role ≡ other_role (f p).role)
    → IsTwoSided users
    → IsTwoSided (map f users)
IsTwoSided-map f users h s = record {
  first = f s.first;
  second = f s.second;
  both = rw s.both refl;
  sides = h s.first s.second s.sides;
}

-- So does a write that keeps the role of the player.
pub IsTwoSided-set :
    (users : List Player) (index : ℕ) (p v : Player)
    → get_elem? users index ≡ some p
    → v.role ≡ p.role
    → IsTwoSided users
    → IsTwoSided (set users index v)
IsTwoSided-set users index p v here same s =
    rw s.both (go s.first s.second index (rw s.both at here) s.sides)
  where
    go :
        (a b : Player) (i : ℕ)
        → get_elem? (a ∷ b ∷ []) i ≡ some p
        → b.role ≡ other_role a.role
        → IsTwoSided (set (a ∷ b ∷ []) i v)
    go a b zero e sides = record {
      first = v;
      second = b;
      both = refl;
      sides =
          sides
          ∙ ap other_role (sym (same ∙ ap (λ (x : Player). x.role) (sym (some-injective a p e))));
    }
    go a b (suc zero) e sides = record {
      first = a;
      second = v;
      both = refl;
      sides = same ∙ ap (λ (x : Player). x.role) (sym (some-injective b p e)) ∙ sides;
    }
    go a b (suc (suc i)) e sides = cc

pub retrieve-Keeps :
    (table_id : ℕ) → Keeps IsFair (λ (t : Table). IsTwoSided t.users) (retrieve_game_table table_id)
unfolding retrieve_game_table IsFair
retrieve-Keeps table_id = record {
  run = λ w fair. (fair, λ t e. go t (w.tables table_id) (fair table_id) e);
}
  where
    go :
        (t : Table) (o : Option Table)
        → ((u : Table) → o ≡ some u → IsTwoSided u.users)
        → found o ≡ ok t
        → IsTwoSided t.users
    go t none h e = cc
    go t (some u) h e = h t (cc e)

pub store-Keeps :
    (t : Table) → IsTwoSided t.users → Keeps IsFair (Always IsFair) (store_game_table t)
unfolding store_game_table IsFair
store-Keeps t s = record {
  run = λ w fair. (
    λ j u e. elim (Bool-cases (j == t.id)) [
      | inl hit ↦
          let same = some-injective t u (rw hit at e) in
          subst (λ (v : Table). IsTwoSided v.users) same s
      | inr miss ↦ fair j u (rw miss at e)
    ],
    λ v e. tt,
  );
}

pub cache-Keeps :
    (t : Table) → IsTwoSided t.users → Keeps IsFair (Always IsFair) (store_and_cache t)
unfolding store_and_cache store_game_table IsFair
cache-Keeps t s = record {
  run = λ w fair. (
    λ j u e. elim (Bool-cases (j == t.id)) [
      | inl hit ↦
          let same = some-injective t u (rw hit at e) in
          subst (λ (v : Table). IsTwoSided v.users) same s
      | inr miss ↦ fair j u (rw miss at e)
    ],
    λ v e. tt,
  );
}

pub same-Keeps :
    {m : Action World (Unit {0})}
    → ((w : World) → (m w).1.tables ≡ w.tables)
    → Keeps IsFair (Always IsFair) m
unfolding IsFair
same-Keeps {m} h = record {
  run = λ w fair. (λ j t e. fair j t (ap (λ f. f j) (sym (h w)) ∙ e), λ v e. tt);
}
