-- ===== src/Datapath/Classify/Merge.antt =====
-- src/client-access-bpf.c, `ca_classify`: what the class of a flow depends on.
use client_access.Prelude.{◌≡◌, Option, none, some, arith}
use client_access.Abi.{ClassHint}
use client_access.Datapath.Classify.{merge_hint, merge_hints, class_of}

-- The class of a flow does not depend on which of the two hints is merged first.
pub class_of-merge_hints_comm :
    (a b : Option ClassHint) → class_of (merge_hints a b) ≡ class_of (merge_hints b a)
unfolding merge_hint merge_hints class_of
class_of-merge_hints_comm none none = ground arith
class_of-merge_hints_comm none (some b) = ground arith
class_of-merge_hints_comm (some a) none = ground arith
class_of-merge_hints_comm (some a) (some b) = ground arith
