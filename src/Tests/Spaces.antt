-- ===== src/Tests/Spaces.antt =====
-- Physical memory, address spaces and page faults at concrete inputs.
use polito_os161v.Common.{◌%◌, ◌≡◌, ◌↔◌, inl, inr, refl, arith, true, some, [], ◌∷◌}
use polito_os161v.Vm.Ram.{Ram, page_frame}
use polito_os161v.Vm.Ram.Laws.{IsValid}
use polito_os161v.Vm.AddrSpace.{AddrSpace, prepare_load, copy}
use polito_os161v.Vm.AddrSpace.Load.{IsSized, Prepared, prepare_load-Prepared}
use polito_os161v.Vm.AddrSpace.Copy.{IsBelow, Copied, copy-Copied}
use polito_os161v.Vm.Fault.{translate, vm_fault, is_set_up}
use polito_os161v.Vm.Fault.Laws.{IsReady, Maps, Served, translate_iff, vm_fault-Served}
use polito_os161v.Vm.Fault.Isolation.{IsolatedCopy, copy_isolated}

-- Memory from 1 MB to 4 MB, where each byte says where in its page it lies, roughly.
abbrev ram : Ram
ram = record { firstpaddr = 0x100000; lastpaddr = 0x400000; mem = λ a. a % 4096 }

ram-IsValid : IsValid ram
ram-IsValid = record {
  nonzero = omega arith;
  ordered = omega arith;
  limit = omega arith;
  aligned = refl;
}

-- Two pages of code at 4 MB and one of data above, in no frames yet, and in frames below `ram`.
abbrev unplaced : AddrSpace
unplaced = record {
  vbase1 = 0x400000;
  pbase1 = 0;
  npages1 = 2;
  vbase2 = 0x410000;
  pbase2 = 0;
  npages2 = 1;
  stackpbase = 0;
}

abbrev parent : AddrSpace
parent = record unplaced { pbase1 = 0x80000; pbase2 = 0x82000; stackpbase = 0x83000 }

abbrev child : AddrSpace
child = record unplaced { pbase1 = 0x100000; pbase2 = 0x102000; stackpbase = 0x103000 }

unplaced-IsSized : IsSized unplaced
unplaced-IsSized = record { first = omega arith; second = omega arith }

parent-IsSized : IsSized parent
parent-IsSized = record { first = omega arith; second = omega arith }

parent-IsBelow : IsBelow parent 0x100000
parent-IsBelow = record { first = omega arith; second = omega arith; stack = omega arith }

prepare_load-Prepared_example : Prepared unplaced ram (prepare_load unplaced ram)
prepare_load-Prepared_example = prepare_load-Prepared unplaced-IsSized ram-IsValid refl refl refl

copy-Copied_example : Copied parent ram (copy true parent ram)
copy-Copied_example = copy-Copied parent ram parent-IsBelow parent-IsSized ram-IsValid

parent-IsReady : IsReady parent
unfolding is_set_up
parent-IsReady = record {
  set_up = refl;
  below1 = omega arith;
  below2 = omega arith;
  apart = inl (omega arith);
  frames1 = omega arith;
  frames2 = omega arith;
  frames3 = omega arith;
}

translate_iff_example : (translate parent 0x401004 ≡ some 0x81004) ↔ Maps parent 0x401004 0x81004
translate_iff_example = translate_iff 0x401004 0x81004 parent-IsReady

vm_fault-Served_example :
    Served parent
      (page_frame 0x401004)
      (record { ehi = 0; elo = 0 } ∷ [])
      (vm_fault 1 0x401004 (some parent) (record { ehi = 0; elo = 0 } ∷ []))
vm_fault-Served_example =
    vm_fault-Served 1 0x401004 (record { ehi = 0; elo = 0 } ∷ []) parent-IsReady (inr refl)

copy_isolated_example : IsolatedCopy parent ram (copy true parent ram)
copy_isolated_example =
    copy_isolated parent ram parent-IsBelow parent-IsSized ram-IsValid parent-IsReady
