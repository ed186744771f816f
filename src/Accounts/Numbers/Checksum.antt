-- ===== src/Accounts/Numbers/Checksum.antt =====
-- The numbers that the generator makes.
use kudi_ai.Common.{
  ◌≡◌, refl, sym, ap, ◌∙◌, arith, ℕ, zero, suc, ◌+◌, ◌-◌, ◌*◌, ◌%◌, ◌≤◌, String, Bool, true, false,
  ◌==◌, List, [], ◌∷◌, ◌++◌, codes, length, inl, inr, length-append, Bool-cases,
}
use kudi_ai.Shared.Errors.{ok, Result-cases}
use kudi_ai.Database.{World, query-frame}
use kudi_ai.Database.Tables.{any}
use kudi_ai.Accounts.Mapper.{create_account_number, matches_nuban}
use kudi_ai.Accounts.Repository.Queries.{exists_by_account_number}
use kudi_ai.Shared.Digits.{text_of}
use kudi_ai.Accounts.Numbers.{
  weigh, check_digit, nuban_weights, build_with_checksum, serial_of, attempts, generate,
}

-- The weights of all ten digits: the check digit counts once.
abbrev all_weights : List ℕ
all_weights = nuban_weights ++ 1 ∷ []

weigh-append :
    (acc : ℕ) (cs ds ws vs : List ℕ)
    → length cs ≡ length ws
    → weigh acc (cs ++ ds) (ws ++ vs) ≡ weigh (weigh acc cs ws) ds vs
weigh-append acc [] ds [] vs e = refl
weigh-append acc [] ds (w ∷ ws) vs e = absurd (ground arith)
weigh-append acc (c ∷ cs) ds [] vs e = absurd (ground arith)
weigh-append acc (c ∷ cs) ds (w ∷ ws) vs e =
    weigh-append (acc + (c - b'0') * w) cs ds ws vs (omega arith)

check_digit-completes : (sum : ℕ) → ((sum + check_digit sum) % 10 ≡ 0) × (check_digit sum ≤ 9)
check_digit-completes sum = (ground arith, ground arith)

length-codes-text_of : (cs : List ℕ) → length (codes (text_of cs)) ≡ length cs
length-codes-text_of [] = refl
length-codes-text_of (c ∷ cs) = ap suc (length-codes-text_of cs)

matches_nuban-length : (s : String) → matches_nuban s ≡ true → length (codes s) ≡ 10
unfolding matches_nuban
matches_nuban-length s h = ground arith

create_account_number-eq_ok :
    (s n : String) → create_account_number s ≡ ok n → (n ≡ s) × (matches_nuban s ≡ true)
unfolding create_account_number
create_account_number-eq_ok s n h = (ground arith, ground arith)

-- Nine digits and their check digit.
build_with_checksum-checked :
    (bank serial : List ℕ)
    → length (bank ++ serial) ≡ 9
    → weigh 0 (build_with_checksum bank serial) all_weights % 10 ≡ 0
unfolding build_with_checksum
build_with_checksum-checked bank serial e =
    let sum = weigh 0 (bank ++ serial) nuban_weights in
    let d = check_digit sum in
    let splits = weigh-append 0 (bank ++ serial) ((d + b'0') ∷ []) nuban_weights (1 ∷ []) e in
    let (divides, _) = check_digit-completes sum in
    let last : sum + (d + b'0' - b'0') * 1 ≡ sum + d = omega arith in
    ap (λ x. x % 10) (splits ∙ last) ∙ divides

exists_by_account_number-eq_ok :
    (n : String) (w : World) (b : Bool) {w' : World}
    → exists_by_account_number n w ≡ (ok b, w')
    → (b ≡ any (λ r. r.account_number == n) w.db.accounts) × (w'.db ≡ w.db)
unfolding exists_by_account_number
exists_by_account_number-eq_ok n w b h = ground (arith, query-frame w)

exists_by_account_number-db : (n : String) (w : World) → (exists_by_account_number n w).1.db ≡ w.db
unfolding exists_by_account_number
exists_by_account_number-db n w = ground (arith, query-frame w)

-- A number of ten digits whose weighted sum ends in 0, of this bank, that no account has.
pub record IsNuban (bank : List ℕ) (w : World) (n : String) : Type 0 where
  pub cs : List ℕ
  pub text : n ≡ text_of cs
  pub serial : List ℕ
  from_bank : cs ≡ build_with_checksum bank serial
  pub digits : matches_nuban n ≡ true
  pub checked : weigh 0 cs all_weights % 10 ≡ 0
  unused : any (λ r. r.account_number == n) w.db.accounts ≡ false

found-IsNuban :
    (bank serial : List ℕ) (w : World) (n : String)
    → create_account_number (text_of (build_with_checksum bank serial)) ≡ ok n
    → any (λ r. r.account_number == n) w.db.accounts ≡ false
    → IsNuban bank w n
unfolding build_with_checksum
found-IsNuban bank serial w n made unused =
    let cs = build_with_checksum bank serial in
    let (same, digits) = create_account_number-eq_ok (text_of cs) n made in
    let ten = sym (length-codes-text_of cs) ∙ matches_nuban-length (text_of cs) digits in
    let split =
      length-append (bank ++ serial)
        ((check_digit (weigh 0 (bank ++ serial) nuban_weights) + b'0') ∷ []) in
    record {
      cs = cs;
      text = same;
      serial = serial;
      from_bank = refl;
      digits = rw same digits;
      checked = build_with_checksum-checked bank serial (omega (arith, ten, split));
      unused = unused;
    }

IsNuban-of_db :
    (bank : List ℕ) (v w : World) (n : String) → v.db ≡ w.db → IsNuban bank v n → IsNuban bank w n
IsNuban-of_db bank v w n e p = record {
  cs = p.cs;
  text = p.text;
  serial = p.serial;
  from_bank = p.from_bank;
  digits = p.digits;
  checked = p.checked;
  unused = ap (λ b. any (λ r. r.account_number == n) b.accounts) (sym e) ∙ p.unused;
}

attempts-IsNuban :
    (bank : List ℕ) (draws : ℕ → ℕ) (i left : ℕ) (w : World) (n : String) {w' : World}
    → attempts bank draws i left w ≡ (ok n, w')
    → IsNuban bank w n × (w'.db ≡ w.db)
unfolding attempts
attempts-IsNuban bank draws i zero w n h = absurd (ground arith)
attempts-IsNuban bank draws i (suc left) w n {w'} h =
    let serial = serial_of (draws i) in
    elim (Result-cases (create_account_number (text_of (build_with_checksum bank serial)))) [
      | inr (x, e) ↦ absurd (ground arith)
      | inl (m, e) ↦
          let w₁ = (exists_by_account_number m w).1 in
          elim (Result-cases (exists_by_account_number m w).0) [
            | inr (x, f) ↦ absurd (ground arith)
            | inl (b, f) ↦
                let (is_used, same) =
                  exists_by_account_number-eq_ok m w b {w' = w₁} (ground arith) in
                elim (Bool-cases b) [
                  | inl g ↦
                      let (made, same') =
                        attempts-IsNuban bank draws (i + 1) left w₁ n {w' = w'} (ground arith) in
                      (IsNuban-of_db bank w₁ w n same made, same' ∙ same)
                  | inr g ↦
                      let equal : m ≡ n = ground arith in
                      (
                        found-IsNuban bank serial w n (e ∙ ap ok equal) (
                            ap (λ m. any (λ r. r.account_number == m) w.db.accounts) (sym equal)
                            ∙ sym is_used
                            ∙ g),
                        ground arith,
                      )
                ]
          ]
    ]

-- Whatever calls of the client fail: a number that the generator returns has ten digits, is the
-- bank code, a serial and a check digit, its weighted sum ends in 0, and no account has it; the
-- database is the same.
pub generate-IsNuban :
    (bank : List ℕ) (draws : ℕ → ℕ) (w : World) (n : String) {w' : World}
    → generate bank draws w ≡ (ok n, w')
    → IsNuban bank w n × (w'.db ≡ w.db)
unfolding generate
generate-IsNuban bank draws w n h = attempts-IsNuban bank draws 0 10 w n h
