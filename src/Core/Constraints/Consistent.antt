-- ===== src/Core/Constraints/Consistent.antt =====
-- What the constraints of the schema make of whole tables.
use propnest_api.Core.Schema.{Tables}
use propnest_api.Core.Repository.{
  property_repo, contract_repo, lease_repo, billing_record_repo, payment_repo, user_repo,
  tenant_repo, collection_repo, document_repo,
}
use propnest_api.Core.Repository.Keeps.{Admits}
use propnest_api.Core.Constraints.Rules.{
  ContractRules, ContractRules-append, ContractRules-replace, ContractRules-remove, RecordRules,
  RecordRules-append, RecordRules-replace, RecordRules-remove,
}
use propnest_api.Core.Constraints.TenantTable.{
  TenantRules, TenantRules-append, TenantRules-replace, TenantRules-remove, TenantRules-unlink,
}
use propnest_api.Core.Constraints.UserTable.{
  UserRules, UserRules-append, UserRules-replace, UserRules-remove,
}

pub record IsConsistent (t : Tables) : Type 0 where
  pub contracts : ContractRules t.contracts
  pub records : RecordRules t.billing_records
  pub tenants : TenantRules t.tenants
  pub users : UserRules t.users

pub Admits-contract : Admits IsConsistent contract_repo
Admits-contract = record {
  inserted = λ r t fresh holds k. record {
    contracts = ContractRules-append r t holds k.contracts fresh;
    records = k.records;
    tenants = k.tenants;
    users = k.users;
  };
  replaced = λ r t holds k. record {
    contracts = ContractRules-replace r t holds k.contracts;
    records = k.records;
    tenants = k.tenants;
    users = k.users;
  };
  removed = λ i t k. record {
    contracts = ContractRules-remove i t.contracts k.contracts;
    records = k.records;
    tenants = k.tenants;
    users = k.users;
  };
}

pub Admits-billing_record : Admits IsConsistent billing_record_repo
Admits-billing_record = record {
  inserted = λ r t fresh holds k. record {
    contracts = k.contracts;
    records = RecordRules-append r t holds k.records fresh;
    tenants = k.tenants;
    users = k.users;
  };
  replaced = λ r t holds k. record {
    contracts = k.contracts;
    records = RecordRules-replace r t holds k.records;
    tenants = k.tenants;
    users = k.users;
  };
  removed = λ i t k. record {
    contracts = k.contracts;
    records = RecordRules-remove i t.billing_records k.records;
    tenants = k.tenants;
    users = k.users;
  };
}

pub Admits-tenant : Admits IsConsistent tenant_repo
Admits-tenant = record {
  inserted = λ r t fresh holds k. record {
    contracts = k.contracts;
    records = k.records;
    tenants = TenantRules-append r t holds k.tenants fresh;
    users = k.users;
  };
  replaced = λ r t holds k. record {
    contracts = k.contracts;
    records = k.records;
    tenants = TenantRules-replace r t holds k.tenants;
    users = k.users;
  };
  removed = λ i t k. record {
    contracts = k.contracts;
    records = k.records;
    tenants = TenantRules-remove i t.tenants k.tenants;
    users = k.users;
  };
}

pub Admits-user : Admits IsConsistent user_repo
Admits-user = record {
  inserted = λ r t fresh holds k. record {
    contracts = k.contracts;
    records = k.records;
    tenants = k.tenants;
    users = UserRules-append r t holds k.users fresh;
  };
  replaced = λ r t holds k. record {
    contracts = k.contracts;
    records = k.records;
    tenants = k.tenants;
    users = UserRules-replace r t holds k.users;
  };
  removed = λ i t k. record {
    contracts = k.contracts;
    records = k.records;
    tenants = TenantRules-unlink i t.tenants k.tenants;
    users = UserRules-remove i t.users k.users;
  };
}

pub Admits-property : Admits IsConsistent property_repo
Admits-property = record {
  inserted = λ r t fresh holds k. record {
    contracts = k.contracts;
    records = k.records;
    tenants = k.tenants;
    users = k.users;
  };
  replaced = λ r t holds k. record {
    contracts = k.contracts;
    records = k.records;
    tenants = k.tenants;
    users = k.users;
  };
  removed = λ i t k. record {
    contracts = k.contracts;
    records = k.records;
    tenants = k.tenants;
    users = k.users;
  };
}

pub Admits-lease : Admits IsConsistent lease_repo
Admits-lease = record {
  inserted = λ r t fresh holds k. record {
    contracts = k.contracts;
    records = k.records;
    tenants = k.tenants;
    users = k.users;
  };
  replaced = λ r t holds k. record {
    contracts = k.contracts;
    records = k.records;
    tenants = k.tenants;
    users = k.users;
  };
  removed = λ i t k. record {
    contracts = k.contracts;
    records = k.records;
    tenants = k.tenants;
    users = k.users;
  };
}

pub Admits-payment : Admits IsConsistent payment_repo
Admits-payment = record {
  inserted = λ r t fresh holds k. record {
    contracts = k.contracts;
    records = k.records;
    tenants = k.tenants;
    users = k.users;
  };
  replaced = λ r t holds k. record {
    contracts = k.contracts;
    records = k.records;
    tenants = k.tenants;
    users = k.users;
  };
  removed = λ i t k. record {
    contracts = k.contracts;
    records = k.records;
    tenants = k.tenants;
    users = k.users;
  };
}

pub Admits-collection : Admits IsConsistent collection_repo
Admits-collection = record {
  inserted = λ r t fresh holds k. record {
    contracts = k.contracts;
    records = k.records;
    tenants = k.tenants;
    users = k.users;
  };
  replaced = λ r t holds k. record {
    contracts = k.contracts;
    records = k.records;
    tenants = k.tenants;
    users = k.users;
  };
  removed = λ i t k. record {
    contracts = k.contracts;
    records = k.records;
    tenants = k.tenants;
    users = k.users;
  };
}

pub Admits-document : Admits IsConsistent document_repo
Admits-document = record {
  inserted = λ r t fresh holds k. record {
    contracts = k.contracts;
    records = k.records;
    tenants = k.tenants;
    users = k.users;
  };
  replaced = λ r t holds k. record {
    contracts = k.contracts;
    records = k.records;
    tenants = k.tenants;
    users = k.users;
  };
  removed = λ i t k. record {
    contracts = k.contracts;
    records = k.records;
    tenants = k.tenants;
    users = k.users;
  };
}
