-- ===== src/Applications/Proposing/Rounds.antt =====
-- Each round gets the value of its line.
use broadcast_service.Base.{
  ℕ, zero, suc, ◌+◌, ◌-◌, ◌^◌, ◌<◌, ◌≤◌, ◌≡◌, refl, sym, ap, ◌∙◌, subst, inl, inr, List, [], ◌∷◌,
  ◌++◌, append-nil, append_assoc, arith, ltb, length, min, Bool-cases,
}
use broadcast_service.Primitives.LatticeAgreement.ProposalMessage.{Proposal, ProposalMessage}
use broadcast_service.Applications.Proposing.{read_proposal_from_input, fill, message}

-- The input behind some lines.
unfoldable pub after : ℕ → List (List ℕ) → List (List ℕ)
after zero input = input
after (suc n) input = after n (read_proposal_from_input input).1

-- The rounds from `round` on, each with the value of its line.
unfoldable pub by_line : ℕ → ℕ → List (List ℕ) → List (ℕ × List ℕ)
by_line round zero input = []
by_line round (suc n) input =
    let line = read_proposal_from_input input in (round, line.0) ∷ by_line (round + 1) n line.1

-- The rounds of proposals and of messages, each with what is proposed.
unfoldable pub numbered : ℕ → List Proposal → List (ℕ × List ℕ)
numbered round [] = []
numbered round (proposal ∷ proposals) =
    (round, proposal.proposed_value) ∷ numbered (round + 1) proposals

unfoldable pub rounds : List ProposalMessage → List (ℕ × List ℕ)
rounds [] = []
rounds (message ∷ messages) = numbered message.first_round_id message.proposals ++ rounds messages

pub after-after : (a b : ℕ) (input : List (List ℕ)) → after b (after a input) ≡ after (a + b) input
unfolding after
after-after zero b input = let e : 0 + b ≡ b = omega arith in ap (λ n. after n input) (sym e)
after-after (suc a) b input =
    let e : suc a + b ≡ suc (a + b) = omega arith in
    after-after a b (read_proposal_from_input input).1 ∙ ap (λ n. after n input) (sym e)

pub by_line-append :
    (round a b : ℕ) (input : List (List ℕ))
    → by_line round (a + b) input ≡ by_line round a input ++ by_line (round + a) b (after a input)
unfolding by_line after
by_line-append round zero b input =
    let e : 0 + b ≡ b = omega arith in let f : round + 0 ≡ round = omega arith in rw (e, f) refl
by_line-append round (suc a) b input =
    let line = read_proposal_from_input input in
    let next : round + 1 + a ≡ round + suc a = omega arith in
    let e : suc a + b ≡ suc (a + b) = omega arith in
    ap (λ n. by_line round n input) e
    ∙ ap (λ xs. (round, line.0) ∷ xs)
        (by_line-append (round + 1) a b line.1
          ∙ ap (λ r. by_line (round + 1) a line.1 ++ by_line r b (after a line.1)) next)

pub rounds-append :
    (messages : List ProposalMessage) (message : ProposalMessage)
    → rounds (messages ++ message ∷ [])
      ≡ rounds messages ++ numbered message.first_round_id message.proposals
unfolding rounds
rounds-append [] message = append-nil (numbered message.first_round_id message.proposals)
rounds-append (m ∷ messages) message =
    ap (λ xs. numbered m.first_round_id m.proposals ++ xs) (rounds-append messages message)
    ∙ sym (
        append_assoc (numbered m.first_round_id m.proposals) (rounds messages)
          (numbered message.first_round_id message.proposals))

-- What a message holds, if `n` proposals are left.
pub record Filled (round n : ℕ) (input : List (List ℕ)) (filled : List Proposal × List (List ℕ))
    : Type 0 where
  pub count : length filled.0 ≡ n
  pub values : numbered round filled.0 ≡ by_line round n input
  pub rest : filled.1 ≡ after n input

Filled-none : (round n : ℕ) (input : List (List ℕ)) → n ≡ 0 → Filled round n input ([], input)
unfolding after by_line numbered
Filled-none round n input e = record {
  count = sym e;
  values = ap (λ n. by_line round n input) (sym e);
  rest = ap (λ n. after n input) (sym e);
}

Filled-one :
    (round n m : ℕ) (input : List (List ℕ)) (others : List Proposal × List (List ℕ))
    → m ≡ suc n
    → Filled (round + 1) n (read_proposal_from_input input).1 others
    → Filled round m input (
      record { proposed_value = (read_proposal_from_input input).0; active_proposal_number = 0 }
          ∷ others.0,
      others.1,
    )
unfolding after by_line numbered
Filled-one round n m input others e i = record {
  count = ap suc i.count ∙ sym e;
  values =
      ap (λ xs. (round, (read_proposal_from_input input).0) ∷ xs) i.values
      ∙ ap (λ n. by_line round n input) (sym e);
  rest = i.rest ∙ ap (λ n. after n input) (sym e);
}

fill_goes :
    (left idx current num : ℕ) (input : List (List ℕ))
    → current + idx < 2 ^ 32
    → current + idx < num
    → fill (suc left) idx current num input ≡ (
      record { proposed_value = (read_proposal_from_input input).0; active_proposal_number = 0 }
          ∷ (fill left (idx + 1) current num (read_proposal_from_input input).1).0,
      (fill left (idx + 1) current num (read_proposal_from_input input).1).1,
    )
unfolding fill
fill_goes left idx current num input fits h = ground arith

fill_stops :
    (left idx current num : ℕ) (input : List (List ℕ))
    → current + idx < 2 ^ 32
    → num ≤ current + idx
    → fill (suc left) idx current num input ≡ ([], input)
unfolding fill
fill_stops left idx current num input fits h = ground arith

pub fill-Filled :
    (left idx current num : ℕ) (input : List (List ℕ))
    → current + idx + left < 2 ^ 32
    → Filled
        (current + idx)
        (min left (num - (current + idx)))
        input
        (fill left idx current num input)
unfolding fill
fill-Filled zero idx current num input fits =
    Filled-none (current + idx) (min 0 (num - (current + idx))) input (omega arith)
fill-Filled (suc left) idx current num input fits = elim (Bool-cases (ltb (current + idx) num)) [
  | inl within ↦
      let r = fill left (idx + 1) current num (read_proposal_from_input input).1 in
      let rest =
        fill-Filled left (idx + 1) current num (read_proposal_from_input input).1 (omega arith) in
      let e : current + (idx + 1) ≡ current + idx + 1 = omega arith in
      let one : min (suc left) (num - (current + idx))
          ≡ suc (min left (num - (current + (idx + 1)))) =
        ground arith in
      subst (Filled (current + idx) (min (suc left) (num - (current + idx))) input)
        (sym (fill_goes left idx current num input (omega arith) (ground arith)))
        (Filled-one (current + idx) (min left (num - (current + (idx + 1))))
          (min (suc left) (num - (current + idx))) input r one
          (subst
            (λ k.
              Filled k (min left (num - (current + (idx + 1)))) (read_proposal_from_input input).1
                r)
            e rest))
  | inr beyond ↦
      subst (Filled (current + idx) (min (suc left) (num - (current + idx))) input)
        (sym (fill_stops left idx current num input (omega arith) (ground arith)))
        (Filled-none (current + idx) (min (suc left) (num - (current + idx))) input (ground arith))
]
