-- ===== src/CharDevice/Samples.antt =====
-- modrefcnt/modtest.c: the theorems on a kernel where every step succeeds.
use divers.Base.{some, []}
use divers.CharDevice.{Kernel, Driver, resget_init, IsInit, resget_init-IsInit}

abbrev willing : Kernel
willing = record {
  region_ret = 0;
  dnum = 250;
  class_made = some 5000;
  add_ret = 0;
  device_made = some 6000;
}

abbrev loaded : Driver
loaded = record { lbdnum = 0; lbclass = 0; lbdevice = 0 }

resget_init-IsInit_example : IsInit willing [] (resget_init willing loaded [])
resget_init-IsInit_example = resget_init-IsInit willing loaded []
