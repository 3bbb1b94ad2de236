-- ===== src/Netconf/Sessions/Index.antt =====
-- The two maps of the session manager, `sessions` and `numericIDIndex`.
pub mod Runs
use text.Mathlib.Text.{◌==◌ as str_eq}
use text.Mathlib.TextEquality.{eq_iff}
use arca_router.Prelude.{
  ℕ, Bool, true, false, ◌&&◌, ◌||◌, List, [], ◌∷◌, Option, none, some, String, ◌≡◌, ◌≢◌, refl, sym,
  ap, ◌∙◌, arith, subst, ◌==◌, ==_iff, if◌then◌else◌, ne_of_str_eq, Bool-cases, Option-cases,
  Option-intro, inl, inr,
}
use arca_router.Datastore.Table.{
  select, delete, update, replace, HasUniqueKeys, select-delete_if, select-replace, select-update,
  delete_if-HasUniqueKeys, replace-HasUniqueKeys, update-HasUniqueKeys, key-select,
}
use arca_router.Netconf.Sessions.{
  Session, SessionManager, State, IndexEntry, session_key, get, get_by_numeric_id, index_get,
  index_delete, index_put, create, next_session_id, touch, update_last_used, forget, forget_all,
  has_expired, expired_sessions, close_session, close_session_by_numeric_id, close_all,
  cleanup_expired_sessions,
}

index_get-index_delete :
    (m n : ℕ) (es : List IndexEntry)
    → index_get m (index_delete n es) ≡ (if n == m then none else index_get m es)
unfolding index_get index_delete
index_get-index_delete m n [] = ground arith
index_get-index_delete m n (e ∷ es) = ground (arith, index_get-index_delete m n es)

index_get-index_put :
    (m n : ℕ) (id : String) (es : List IndexEntry)
    → index_get m (index_put n id es) ≡ (if n == m then some id else index_get m es)
unfolding index_put index_get
index_get-index_put m n id es = ground (arith, index_get-index_delete m n es)

-- The index leads to a session of that number, and every session is in the index.
pub record Indexed (sm : SessionManager) : Type 0 where
  pub unique : HasUniqueKeys session_key sm.sessions
  pub leads :
      (n : ℕ) (id : String)
      → index_get n sm.numeric_id_index ≡ some id
      → (s : Session) × (get id sm ≡ some s) × (s.numeric_id ≡ n)
  pub listed :
      (id : String) (s : Session)
      → get id sm ≡ some s
      → index_get s.numeric_id sm.numeric_id_index ≡ some id

-- The two look-ups agree.
pub get_by_numeric_id-get :
    (sm : SessionManager) (id : String) (s : Session)
    → Indexed sm
    → get id sm ≡ some s
    → get_by_numeric_id s.numeric_id sm ≡ some s
unfolding get_by_numeric_id
get_by_numeric_id-get sm id s k e = ground (arith, k.listed id s e, e)

pub forget-Indexed :
    (sm : SessionManager) (s : Session) → Indexed sm → get s.id sm ≡ some s → Indexed (forget s sm)
forget-Indexed sm s k live =
    let gone =
      λ (id : String). select-delete_if session_key s.id id (λ _. true) sm.sessions k.unique in
    let left = λ (m : ℕ). index_get-index_delete m s.numeric_id sm.numeric_id_index in
    let mine = k.listed s.id s live in
    record {
      unique = delete_if-HasUniqueKeys session_key s.id (λ _. true) sm.sessions k.unique;
      leads = λ n id f. elim (Bool-cases (s.numeric_id == n)) [
        | inl h ↦ absurd (ground (arith, f, left n, h))
        | inr h ↦
            let old : index_get n sm.numeric_id_index ≡ some id = ground (arith, f, left n, h) in
            let (q, found, number) = k.leads n id old in
            elim (Bool-cases (str_eq s.id id)) [
              | inl same ↦
                  let e : s.id ≡ id = (eq_iff s.id id).0 same in
                  let both : some s ≡ some q = sym live ∙ (ap (λ x. get x sm) e ∙ found) in
                  let clash : s.numeric_id ≡ n = cc (both, number) in
                  absurd (ground (arith, h, clash))
              | inr other ↦ (q, gone id ∙ ground (arith, found, other), number)
            ]
      ];
      listed = λ id q f. elim (Bool-cases (str_eq s.id id)) [
        | inl same ↦
            let lost : select session_key id (delete session_key s.id sm.sessions) ≡ none =
              gone id ∙ ground (arith, same, Option-cases (get id sm)) in
            let clash : none ≡ some q = sym lost ∙ f in absurd cc
        | inr other ↦
            let old : get id sm ≡ some q = ground (arith, f, gone id, other) in
            let number = k.listed id q old in
            elim (Bool-cases (s.numeric_id == q.numeric_id)) [
              | inl h ↦
                  let e : s.numeric_id ≡ q.numeric_id = ground (arith, h) in
                  let both : some s.id ≡ some id =
                    sym mine ∙ (ap (λ n. index_get n sm.numeric_id_index) e ∙ number) in
                  let same : s.id ≡ id = cc both in
                  absurd (ground (arith, same, other, eq_iff s.id id))
              | inr h ↦ left q.numeric_id ∙ ground (arith, h, number)
            ]
      ];
    }

-- A new session under a UUID and a number that are not in use.
pub added-Indexed :
    (sm : SessionManager) (s : Session)
    → Indexed sm
    → get s.id sm ≡ none
    → index_get s.numeric_id sm.numeric_id_index ≡ none
    → Indexed (record sm {
      sessions = replace session_key s sm.sessions;
      numeric_id_index = index_put s.numeric_id s.id sm.numeric_id_index;
    })
added-Indexed sm s k fresh unused =
    let now_has = λ (id : String). select-replace session_key id s sm.sessions k.unique in
    let now_leads = λ (m : ℕ). index_get-index_put m s.numeric_id s.id sm.numeric_id_index in
    record {
      unique = replace-HasUniqueKeys session_key s sm.sessions k.unique;
      leads = λ n id f. elim (Bool-cases (s.numeric_id == n)) [
        | inl h ↦
            let same : s.id ≡ id = ground (arith, f, now_leads n, h) in
            (s, now_has id ∙ ground (arith, same, eq_iff s.id id), ground (arith, h))
        | inr h ↦
            let old : index_get n sm.numeric_id_index ≡ some id =
              ground (arith, f, now_leads n, h) in
            let (q, found, number) = k.leads n id old in
            (q, now_has id ∙ ground (arith, found, fresh, eq_iff s.id id), number)
      ];
      listed = λ id q f. elim (Bool-cases (str_eq s.id id)) [
        | inl same ↦
            let e : some s ≡ some q = ground (arith, f, now_has id, same) in
            let number : s.numeric_id ≡ q.numeric_id = cc e in
            let name : s.id ≡ id = (eq_iff s.id id).0 same in
            now_leads q.numeric_id ∙ ground (arith, number, name)
        | inr other ↦
            let old : get id sm ≡ some q = ground (arith, f, now_has id, other) in
            let number = k.listed id q old in
            now_leads q.numeric_id ∙ ground (arith, number, unused)
      ];
    }

pub touched-Indexed :
    (sm : SessionManager) (now : ℕ) (id : String)
    → Indexed sm
    → Indexed (update_last_used now id sm)
unfolding update_last_used
touched-Indexed sm now id k =
    let law = λ (j : String). select-update session_key id j (touch now) sm.sessions (λ r. refl) in
    record {
      unique = update-HasUniqueKeys session_key id (touch now) sm.sessions (λ r. refl) k.unique;
      leads = λ n j f.
          let (q, found, number) = k.leads n j f in
          elim (Bool-cases (str_eq id j)) [
            | inl h ↦ (touch now q, law j ∙ ground (arith, found, h), number)
            | inr h ↦ (q, law j ∙ ground (arith, found, h), number)
          ];
      listed = λ j q f. elim (Option-cases (get j sm)) [
        | inl e ↦ let lost : none ≡ some q = ground (arith, f, law j, e) in absurd cc
        | inr (p, e) ↦
            let number : p.numeric_id ≡ q.numeric_id = ground (arith, f, law j, e) in
            ap (λ n. index_get n sm.numeric_id_index) (sym number) ∙ k.listed j p e
      ];
    }
