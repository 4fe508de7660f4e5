-- ===== src/Tests/Retrieval.antt =====
-- Agent::retrieve_file of agent/server/impl/Agent.cpp in the system in memory.
use oort_agent.Base.{Bytes, codes}
use oort_agent.Posix.Memory
use oort_agent.Agent.Retrieve.{RetrieveFileRequest}

abbrev request : RetrieveFileRequest
request = record { id = codes "a"; save_path = codes "/data/out" }

abbrev stored_file : Bytes
stored_file = codes "/oort/uploads/a.data.oort"
