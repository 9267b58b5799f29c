-- ===== src/Process/Filter/Passing.antt =====
-- What a run of `fql_logic` in lib/fqlprocesses.c does with the elements of its input.
use fql.Prelude.{
  Bool, true, false, ◌||◌, Option, none, some, List, [], ◌∷◌, ◌++◌, ◌≡◌, ◌≢◌, refl, ◌∙◌, sym, ap,
  inl, inr, map, if◌then◌else◌, get_or, arith, append-nil, append_assoc, Bool-cases,
}
use fql.Fifo.{Fifo, get, add, iter, consume}
use fql.Fifo.Valid.{IsValid, count, contents, consume-IsValid}
use fql.Fifo.Queue.{contents-get}
use fql.Fifo.Reach.{Ready, Ready-add}
use fql.Process.{ProcReturn, complete, wait_on_in0, wait_on_out0, wait_on_out1}
use fql.Process.Filter.{
  FilterProc, is_closed, has_no_room, has_output, sent, unsent, blocked, route,
}

module _ {ℓ} {A : Type ℓ} where
  abbrev pub pick : Bool → Bool → A → List A
  pick true true x = x ∷ []
  pick true false x = []
  pick false true x = []
  pick false false x = x ∷ []

  -- Those of a list of judged elements that have one result.
  abbrev pub having : Bool → List (A × Bool) → List A
  having b [] = []
  having b ((x, c) ∷ vs) = pick b c x ++ having b vs

  -- Those without an output for their result, by whether there is one for either.
  abbrev pub left_over : Bool → Bool → List (A × Bool) → List A
  left_over ht hf [] = []
  left_over ht hf ((x, b) ∷ vs) = unsent (if b then ht else hf) x ++ left_over ht hf vs

  -- Each has the result that the condition gives.
  pub data Judged (eval_group : A → Option Bool) : List (A × Bool) → Type ℓ where
    none_judged : Judged eval_group []
    judged :
        (x : A) (b : Bool) (vs : List (A × Bool))
        → eval_group x ≡ some b
        → Judged eval_group vs
        → Judged eval_group ((x, b) ∷ vs)

  -- An output that is ready, if there is one.
  pub data OutReady : Option (Fifo A) → Type ℓ where
    no_output : OutReady none
    output : (f : Fifo A) → Ready f → OutReady (some f)

  -- A process that can go on: its input is valid and being iterated to its end, and its outputs are
  -- ready.
  pub record Going (proc : FilterProc A) : Type ℓ where
    pub valid : IsValid proc.input
    pub to_end : proc.input.iter_head ≡ proc.input.head
    pub true_ready : OutReady proc.out_true
    pub false_ready : OutReady proc.out_false

module _ {ℓ} {A : Type ℓ} (zero_elem : A) where
  -- What has been put to an output, if there is one.
  pub data Sent : Option (Fifo A) → Option (Fifo A) → List A → Type ℓ where
    nowhere : (xs : List A) → Sent none none xs
    behind :
        (f f' : Fifo A) (xs : List A)
        → contents zero_elem f' ≡ contents zero_elem f ++ xs
        → Sent (some f) (some f') xs

  Sent-nothing : (o : Option (Fifo A)) → Sent o o []
  Sent-nothing none = nowhere []
  Sent-nothing (some f) = behind f f [] (sym (append-nil (contents zero_elem f)))

  Sent-append :
      (o p q : Option (Fifo A)) (xs ys : List A) → Sent o p xs → Sent p q ys → Sent o q (xs ++ ys)
  Sent-append _ _ _ xs ys (nowhere _) (nowhere _) = nowhere (xs ++ ys)
  Sent-append _ _ _ xs ys (behind f g _ e) (behind _ h _ e') =
      behind f h (xs ++ ys) (e' ∙ ap (λ l. l ++ ys) e ∙ append_assoc (contents zero_elem f) xs ys)

  has_output-sent : (o : Option (Fifo A)) (x : A) → has_output (sent o x) ≡ has_output o
  has_output-sent none x = refl
  has_output-sent (some f) x = refl

  -- An element put to an output with room.
  sent-Sent :
      (o : Option (Fifo A)) (x : A)
      → OutReady o
      → has_no_room o ≡ false
      → OutReady (sent o x) × Sent o (sent o x) (x ∷ [])
  sent-Sent _ x no_output room = (no_output, nowhere (x ∷ []))
  sent-Sent _ x (output f r) room =
      let (r', now) = Ready-add zero_elem f x r (ground arith) in
      (output (add f x) r', behind f (add f x) (x ∷ []) now)

  -- What came from the input has been judged and went where its result says.
  pub record Passed (eval_group : A → Option Bool) (proc : FilterProc A) (vs : List (A × Bool))
      (proc' : FilterProc A) : Type ℓ where
    pub results : Judged eval_group vs
    pub taken : contents zero_elem proc.input ≡ map (λ v. v.0) vs ++ contents zero_elem proc'.input
    pub to_true : Sent proc.out_true proc'.out_true (having true vs)
    pub to_false : Sent proc.out_false proc'.out_false (having false vs)
    pub dropped :
        proc'.recycled
        ≡ proc.recycled ++ left_over (has_output proc.out_true) (has_output proc.out_false) vs

  -- Why a run returns what it does.
  pub data Reason (proc : FilterProc A) : ProcReturn → Type ℓ where
    output_closed :
        is_closed proc.out_true || is_closed proc.out_false ≡ true → Reason proc complete
    input_ended :
        contents zero_elem proc.input ≡ [] → proc.input.is_open ≡ false → Reason proc complete
    input_empty : contents zero_elem proc.input ≡ [] → Reason proc wait_on_in0
    output_full : (ret : ProcReturn) → blocked proc ≡ some ret → Reason proc ret

  -- A run ends: it fails at an element whose condition fails, or has passed elements on.
  pub data Outcome (eval_group : A → Option Bool) (proc : FilterProc A)
      : Option (Option (ProcReturn × FilterProc A)) → Type ℓ where
    failed :
        (vs : List (A × Bool)) (x : A) (rest : List A)
        → Judged eval_group vs
        → contents zero_elem proc.input ≡ map (λ v. v.0) vs ++ (x ∷ rest)
        → eval_group x ≡ none
        → Outcome eval_group proc (some none)
    passed :
        (ret : ProcReturn) (proc' : FilterProc A) (vs : List (A × Bool))
        → Passed eval_group proc vs proc'
        → Reason proc' ret
        → Outcome eval_group proc (some (some (ret, proc')))

  pub Passed-nothing :
      (eval_group : A → Option Bool) (proc : FilterProc A) → Passed eval_group proc [] proc
  Passed-nothing eval_group proc = record {
    results = none_judged;
    taken = refl;
    to_true = Sent-nothing proc.out_true;
    to_false = Sent-nothing proc.out_false;
    dropped = sym (append-nil proc.recycled);
  }

  blocked-room :
      (proc : FilterProc A)
      → blocked proc ≡ none
      → (has_no_room proc.out_true ≡ false) × (has_no_room proc.out_false ≡ false)
  blocked-room proc free = elim (Bool-cases (has_no_room proc.out_true)) [
    | inl full ↦ absurd (let stop : some wait_on_out1 ≡ none = rw full at free in cc)
    | inr room ↦ elim (Bool-cases (has_no_room proc.out_false)) [
      | inl full ↦ absurd (let stop : some wait_on_out0 ≡ none = rw (room, full) at free in cc)
      | inr room' ↦ (room, room')
    ]
  ]

  -- The outputs after one element.
  record Routed (b : Bool) (x : A) (proc proc' : FilterProc A) : Type ℓ where
    true_ready : OutReady proc'.out_true
    false_ready : OutReady proc'.out_false
    to_true : Sent proc.out_true proc'.out_true (pick true b x)
    to_false : Sent proc.out_false proc'.out_false (pick false b x)
    dropped :
        proc'.recycled
        ≡ proc.recycled
          ++ unsent (if b then has_output proc.out_true else has_output proc.out_false) x
    same_true : has_output proc'.out_true ≡ has_output proc.out_true
    same_false : has_output proc'.out_false ≡ has_output proc.out_false

  route-Routed :
      (b : Bool) (x : A) (proc : FilterProc A)
      → Going proc
      → blocked proc ≡ none
      → Routed b x proc (route b x proc)
  route-Routed true x proc going free =
      let (room, room') = blocked-room proc free in
      let (ready, put) = sent-Sent proc.out_true x going.true_ready room in
      record {
        true_ready = ready;
        false_ready = going.false_ready;
        to_true = put;
        to_false = Sent-nothing proc.out_false;
        dropped = refl;
        same_true = has_output-sent proc.out_true x;
        same_false = refl;
      }
  route-Routed false x proc going free =
      let (room, room') = blocked-room proc free in
      let (ready, put) = sent-Sent proc.out_false x going.false_ready room' in
      record {
        true_ready = going.true_ready;
        false_ready = ready;
        to_true = Sent-nothing proc.out_true;
        to_false = put;
        dropped = refl;
        same_true = refl;
        same_false = has_output-sent proc.out_false x;
      }

  -- One element more at the front.
  module _ (eval_group : A → Option Bool) (proc : FilterProc A) (x : A) (b : Bool)
      (result : eval_group x ≡ some b) (some_elem : count proc.input ≢ 0)
      (first : x ≡ get_or proc.input.buf proc.input.tail zero_elem) (going : Going proc)
      (free : blocked proc ≡ none) where
    unfoldable pub next : FilterProc A
    next = record (route b x proc) { input = (iter zero_elem proc.input).1 }

    routed : Routed b x proc (route b x proc)
    routed = route-Routed b x proc going free

    pub next-Going : Going next
    unfolding next iter consume
    next-Going = record {
      valid = consume-IsValid going.valid;
      to_end = going.to_end;
      true_ready = routed.true_ready;
      false_ready = routed.false_ready;
    }

    pub front : contents zero_elem proc.input ≡ x ∷ contents zero_elem next.input
    unfolding next iter consume get
    front =
        contents-get zero_elem going.valid some_elem
        ∙ ap (λ y. y ∷ contents zero_elem (consume proc.input)) (sym first)

    Passed-next :
        (vs : List (A × Bool)) (proc' : FilterProc A)
        → Passed eval_group next vs proc'
        → Passed eval_group proc ((x, b) ∷ vs) proc'
    unfolding next
    Passed-next vs proc' p =
        let now = routed in
        record {
          results = judged x b vs result p.results;
          taken = front ∙ ap (λ l. x ∷ l) p.taken;
          to_true = Sent-append _ _ _ (pick true b x) (having true vs) now.to_true p.to_true;
          to_false = Sent-append _ _ _ (pick false b x) (having false vs) now.to_false p.to_false;
          dropped =
              p.dropped
              ∙ ap
                  (λ h.
                    (route b x proc).recycled
                    ++ left_over h (has_output (route b x proc).out_false) vs)
                  now.same_true
              ∙ ap (λ h. (route b x proc).recycled ++ left_over (has_output proc.out_true) h vs)
                  now.same_false
              ∙ ap (λ l. l ++ left_over (has_output proc.out_true) (has_output proc.out_false) vs)
                  now.dropped
              ∙ append_assoc proc.recycled _ _;
        }

    pub Outcome-next :
        (r : Option (Option (ProcReturn × FilterProc A)))
        → Outcome eval_group next r
        → Outcome eval_group proc r
    Outcome-next _ (failed vs y rest js same bad) =
        failed ((x, b) ∷ vs) y rest (judged x b vs result js) (front ∙ ap (λ l. x ∷ l) same) bad
    Outcome-next _ (passed ret proc' vs p why) =
        passed ret proc' ((x, b) ∷ vs) (Passed-next vs proc' p) why
