-- ===== src/Resellers/Ledger.antt =====
-- The ledger and the balance: `addLedgerEntry` and `postCommissionForInvoice`.
use isp_cms_be.Prelude.{
  ℕ, ℤ, pos, ◌+ℤ◌, ◌≤ℤ◌, ltb_ℤ, String, Bool, true, false, Option, none, some, List, ◌∷◌, ◌==◌, ◌≡◌,
  ◌≢◌, refl, sym, ap, ◌∙◌, inl, inr, arith, int_laws, +ℤ_comm, not_ltb_ℤ, Bool-cases, Option-cases,
}
use isp_cms_be.Prelude.Table.{find, update_where, sum_where, All, Unique}
use isp_cms_be.Prelude.Table.Laws.{find_holds, All-update_to, find-update_self}
use isp_cms_be.Store.Rows.{Reseller, LedgerEntry, LedgerType}
use isp_cms_be.Store.Monad.{
  Db, Server, Result, ok, err, Exception, unprocessable, internal, transaction,
}
use isp_cms_be.Resellers.{
  reseller_at, find_reseller, posted_for, index_refuses, insert_entry, LedgerInput, signed,
  ledger_row, enter_ledger, add_ledger_entry_among, add_ledger_entry, post_commission_for_invoice,
}

abbrev pub entry_of : ℕ → LedgerEntry → Bool
entry_of k e = e.reseller_id == k

-- The balance is the sum of the reseller's ledger entries, and never below zero.
abbrev pub IsBooked : List LedgerEntry → Reseller → Type 0
IsBooked entries r =
    (pos 0 ≤ℤ r.balance)
    × (r.balance ≡ sum_where (entry_of r.id) (λ (e : LedgerEntry). e.amount) entries)

abbrev pub AllBooked : Db → Type 0
AllBooked db = All (IsBooked db.reseller_ledger) db.resellers

abbrev pub UniqueResellers : Db → Type 0
UniqueResellers db = Unique (λ (r : Reseller). r.id) db.resellers

abbrev pub with_balance : Server → ℤ → Reseller → Reseller
with_balance srv balance r = record r { balance = balance; updated_at = srv.now }

pub sum-cons_other :
    (k : ℕ) (entry : LedgerEntry) (entries : List LedgerEntry)
    → entry.reseller_id ≢ k
    → sum_where (entry_of k) (λ (e : LedgerEntry). e.amount) (entry ∷ entries)
      ≡ sum_where (entry_of k) (λ (e : LedgerEntry). e.amount) entries
unfolding sum_where
sum-cons_other k entry entries h = grind int_laws

pub sum-cons_own :
    (k : ℕ) (entry : LedgerEntry) (entries : List LedgerEntry)
    → entry.reseller_id ≡ k
    → sum_where (entry_of k) (λ (e : LedgerEntry). e.amount) (entry ∷ entries)
      ≡ entry.amount +ℤ sum_where (entry_of k) (λ (e : LedgerEntry). e.amount) entries
unfolding sum_where
sum-cons_own k entry entries h = grind int_laws

-- A new entry and the balance that it leaves.
pub post-IsBooked :
    (srv : Server) (k : ℕ) (entry : LedgerEntry) (next : ℤ) (rows : List Reseller)
    (entries : List LedgerEntry) {r : Reseller}
    → Unique (λ (s : Reseller). s.id) rows
    → find (reseller_at k) rows ≡ some r
    → entry.reseller_id ≡ k
    → next ≡ r.balance +ℤ entry.amount
    → pos 0 ≤ℤ next
    → All (IsBooked entries) rows
    → All (IsBooked (entry ∷ entries)) (update_where (reseller_at k) (with_balance srv next) rows)
post-IsBooked srv k entry next rows entries {r} u found mine moved nonneg h =
    let own : r.id ≡ k = ground (arith, find_holds (reseller_at k) rows found) in
    All-update_to (λ (s : Reseller). s.id) (IsBooked entries) (IsBooked (entry ∷ entries)) k
      (with_balance srv next) rows u found
      (λ s other b.
        (b.0, b.1 ∙ sym (sum-cons_other s.id entry entries (λ e. other (sym e ∙ mine)))))
      (λ b. (
        nonneg,
        (moved ∙ ap (λ (v : ℤ). v +ℤ entry.amount) b.1 ∙ +ℤ_comm _ entry.amount)
            ∙ sym (sum-cons_own r.id entry entries (mine ∙ sym own)),
      ))
      h

-- The insertion under the unique index.
pub insert_entry-refused :
    (entry : LedgerEntry) (db : Db)
    → index_refuses entry db.reseller_ledger ≡ true
    → insert_entry entry db ≡ (err (internal "reseller_ledger_reseller_type_ref_idx"), db)
unfolding insert_entry
insert_entry-refused entry db h = ground arith

pub insert_entry-free :
    (entry : LedgerEntry) (db : Db)
    → index_refuses entry db.reseller_ledger ≡ false
    → insert_entry entry db ≡ (ok tt, record db { reseller_ledger = entry ∷ db.reseller_ledger })
unfolding insert_entry
insert_entry-free entry db h = ground arith

module _ (srv : Server) (k : ℕ) (input : LedgerInput) (db : Db) where
  -- The tables after an entry that goes through on the reseller row `r`.
  abbrev pub entered : Reseller → Db
  entered r = record db {
    reseller_ledger = ledger_row srv k input (r.balance +ℤ signed input) ∷ db.reseller_ledger;
    resellers =
        update_where (reseller_at k) (with_balance srv (r.balance +ℤ signed input)) db.resellers;
  }

  entered_found :
      (r : Reseller)
      → find_reseller k db ≡ some r
      → find_reseller k (entered r) ≡ some (with_balance srv (r.balance +ℤ signed input) r)
  entered_found r found = rw (
    find-update_self (λ (s : Reseller). s.id) k (with_balance srv (r.balance +ℤ signed input))
        db.resellers (λ s. refl),
    found,
  )

  pub enter_short :
      (r : Reseller)
      → ltb_ℤ (r.balance +ℤ signed input) (pos 0) ≡ true
      → enter_ledger srv k input r db ≡ (err (unprocessable "Saldo tidak mencukupi"), db)
  unfolding enter_ledger
  enter_short r short = rw short

  pub enter_taken :
      (r : Reseller)
      → ltb_ℤ (r.balance +ℤ signed input) (pos 0) ≡ false
      → index_refuses (ledger_row srv k input (r.balance +ℤ signed input)) db.reseller_ledger ≡ true
      → enter_ledger srv k input r db ≡ (err (internal "reseller_ledger_reseller_type_ref_idx"), db)
  unfolding enter_ledger
  enter_taken r covered taken =
      ground
        (arith, insert_entry-refused (ledger_row srv k input (r.balance +ℤ signed input)) db taken)

  enter_posts :
      (r : Reseller)
      → find_reseller k db ≡ some r
      → ltb_ℤ (r.balance +ℤ signed input) (pos 0) ≡ false
      → index_refuses (ledger_row srv k input (r.balance +ℤ signed input)) db.reseller_ledger
        ≡ false
      → enter_ledger srv k input r db
        ≡ (ok (with_balance srv (r.balance +ℤ signed input) r), entered r)
  unfolding enter_ledger
  enter_posts r found covered free = ground (
    arith,
    insert_entry-free (ledger_row srv k input (r.balance +ℤ signed input)) db free,
    entered_found r found,
  )

  pub add_ledger_entry_cases {ℓ} :
      (P : Result Reseller × Db → Type ℓ)
      → ((e : Exception) → P (err e, db))
      → ((r : Reseller)
          → find_reseller k db ≡ some r
          → ltb_ℤ (r.balance +ℤ signed input) (pos 0) ≡ false
          → index_refuses (ledger_row srv k input (r.balance +ℤ signed input)) db.reseller_ledger
            ≡ false
          → P (ok (with_balance srv (r.balance +ℤ signed input) r), entered r))
      → P (add_ledger_entry srv k input db)
  unfolding add_ledger_entry add_ledger_entry_among transaction
  add_ledger_entry_cases P failed posted = elim (Option-cases (find_reseller k db)) [
    | inl missing ↦ rw (missing, add_ledger_entry, add_ledger_entry_among) (failed _)
    | inr (r, found) ↦ elim (Bool-cases (ltb_ℤ (r.balance +ℤ signed input) (pos 0))) [
      | inl short ↦
          rw (found, enter_short r short, add_ledger_entry, add_ledger_entry_among) (failed _)
      | inr covered ↦
          elim (Bool-cases (
            index_refuses (ledger_row srv k input (r.balance +ℤ signed input))
              db.reseller_ledger)) [
                | inl taken ↦
                    rw
                      (found, enter_taken r covered taken, add_ledger_entry, add_ledger_entry_among)
                      (failed _)
                | inr free ↦
                    rw
                      (
                        found,
                        enter_posts r found covered free,
                        add_ledger_entry,
                        add_ledger_entry_among,
                      )
                      (posted r found covered free)
              ]
    ]
  ]

  -- When the resellers' keys are unique and every reseller's balance is the sum of its ledger
  -- entries and not negative, the same holds after an `addLedgerEntry` with no other transaction in
  -- between, on every branch.
  pub add_ledger_entry-AllBooked :
      UniqueResellers db → AllBooked db → AllBooked (add_ledger_entry srv k input db).1
  add_ledger_entry-AllBooked u h =
      add_ledger_entry_cases (λ r. AllBooked r.1) (λ e. h)
        λ r found covered free.
          post-IsBooked srv k (ledger_row srv k input (r.balance +ℤ signed input))
            (r.balance +ℤ signed input) db.resellers db.reseller_ledger u found refl refl
            (not_ltb_ℤ (r.balance +ℤ signed input) (pos 0) covered) h

module _ (srv : Server) (k : ℕ) (amount : ℤ) (invoice_id : ℕ) (note : String) (db : Db) where
  abbrev commission : LedgerInput
  commission = record {
    type = LedgerType.commission;
    amount = amount;
    note = note;
    ref = some invoice_id;
  }

  abbrev existing : Db → Option LedgerEntry
  existing d = find (posted_for k LedgerType.commission invoice_id) d.reseller_ledger

  existing_stops :
      (srv' : Server) (amount' : ℤ) (note' : String) (d : Db) (e : LedgerEntry)
      → existing d ≡ some e
      → post_commission_for_invoice srv' k amount' invoice_id note' d ≡ (ok false, d)
  unfolding post_commission_for_invoice
  existing_stops srv' amount' note' d e found = ground arith

  entry_present :
      (r : Reseller) (d : Db)
      → add_ledger_entry srv k commission db ≡ (ok r, d)
      → (e : LedgerEntry) × (existing d ≡ some e)
  unfolding find
  entry_present r d =
      add_ledger_entry_cases srv k commission db
        (λ o. o ≡ (ok r, d) → (e : LedgerEntry) × (existing d ≡ some e))
        (λ e bad. absurd (ground arith))
        λ s found covered free e.
          (ledger_row srv k commission (s.balance +ℤ signed commission), ground arith)

  fresh_posts :
      (o : Result Reseller × Db) (posted : Bool) (d : Db)
      → existing db ≡ none
      → add_ledger_entry srv k commission db ≡ o
      → post_commission_for_invoice srv k amount invoice_id note db ≡ (ok posted, d)
      → (r : Reseller) × (add_ledger_entry srv k commission db ≡ (ok r, d))
  unfolding post_commission_for_invoice
  fresh_posts (ok r, d') posted d fresh outcome e = (r, ground arith)
  fresh_posts (err x, d') posted d fresh outcome e = absurd (ground arith)

  -- After `postCommissionForInvoice` returned for a reseller and an invoice, another call for them,
  -- with any amount and note, answers that it posted nothing and changes no table.
  pub post_commission-once :
      (srv' : Server) (amount' : ℤ) (note' : String) (posted : Bool) (d : Db)
      → post_commission_for_invoice srv k amount invoice_id note db ≡ (ok posted, d)
      → post_commission_for_invoice srv' k amount' invoice_id note' d ≡ (ok false, d)
  post_commission-once srv' amount' note' posted d e = elim (Option-cases (existing db)) [
    | inr (old, found) ↦
        let same : db ≡ d = ground (arith, existing_stops srv amount note db old found) in
        existing_stops srv' amount' note' d old (rw same at found)
    | inl fresh ↦
        let (r, added) = fresh_posts (add_ledger_entry srv k commission db) posted d fresh refl e in
        let (entry, there) = entry_present r d added in
        existing_stops srv' amount' note' d entry there
  ]
