-- ===== src/Library/Symbols.antt =====
-- The symbols of libpython that `LibPython::loadSymbols` (libpython.cpp) asks for, in its order: the
-- name in the library and the variable that takes the address. The build is one for Unix without
-- RETICULATE_PYTHON_DEBUG.
use pyreticulate.Base.{Bool, List, [], ◌∷◌, String, if◌then◌else◌}

abbrev pub Load : Type 0
Load = String × String

abbrev same : String → Load
same name = (name, name)

-- For both versions, ahead of PyUnicode_AsEncodedString.
abbrev pub common_symbols : List Load
common_symbols =
    same "Py_Initialize"
    ∷ same "Py_IsInitialized"
    ∷ same "Py_GetVersion"
    ∷ same "Py_AddPendingCall"
    ∷ same "PyErr_SetInterrupt"
    ∷ same "PyErr_CheckSignals"
    ∷ same "PyExc_KeyboardInterrupt"
    ∷ same "PyExc_ValueError"
    ∷ same "Py_IncRef"
    ∷ same "Py_DecRef"
    ∷ same "PyObject_Size"
    ∷ same "PyObject_Type"
    ∷ same "PyObject_GetAttr"
    ∷ same "PyObject_HasAttr"
    ∷ same "PyObject_SetAttr"
    ∷ same "PyObject_GetAttrString"
    ∷ same "PyObject_HasAttrString"
    ∷ same "PyObject_SetAttrString"
    ∷ same "PyObject_GetItem"
    ∷ same "PyObject_SetItem"
    ∷ same "PyObject_DelItem"
    ∷ same "PyTuple_Size"
    ∷ same "PyTuple_GetItem"
    ∷ same "PyTuple_New"
    ∷ same "PyTuple_SetItem"
    ∷ same "PyTuple_GetSlice"
    ∷ same "PyList_New"
    ∷ same "PyList_Size"
    ∷ same "PyList_GetItem"
    ∷ same "PyList_SetItem"
    ∷ same "PyErr_Clear"
    ∷ same "PyErr_Print"
    ∷ same "PyErr_Fetch"
    ∷ same "PyErr_Restore"
    ∷ same "PyErr_Occurred"
    ∷ same "PyErr_SetNone"
    ∷ same "PyErr_BadArgument"
    ∷ same "PyErr_NormalizeException"
    ∷ same "PyErr_ExceptionMatches"
    ∷ same "PyErr_GivenExceptionMatches"
    ∷ same "PyErr_PrintEx"
    ∷ same "PyObject_Print"
    ∷ same "PyObject_Str"
    ∷ same "PyObject_Repr"
    ∷ same "PyObject_Dir"
    ∷ same "PyByteArray_Size"
    ∷ same "PyByteArray_FromStringAndSize"
    ∷ same "PyByteArray_AsString"
    ∷ same "PyCallable_Check"
    ∷ same "PyRun_StringFlags"
    ∷ same "PyRun_FileEx"
    ∷ same "PyEval_EvalCode"
    ∷ same "PyModule_GetDict"
    ∷ same "PyImport_AddModule"
    ∷ same "PyImport_ImportModule"
    ∷ same "PyImport_Import"
    ∷ same "PyImport_GetModuleDict"
    ∷ same "PyObject_GetIter"
    ∷ same "PyIter_Next"
    ∷ same "PyLong_AsLong"
    ∷ same "PyLong_FromLong"
    ∷ same "PySlice_New"
    ∷ same "PyBool_FromLong"
    ∷ same "PyDict_New"
    ∷ same "PyDict_Contains"
    ∷ same "PyDict_GetItem"
    ∷ same "PyDict_SetItem"
    ∷ same "PyDict_SetItemString"
    ∷ same "PyDict_DelItemString"
    ∷ same "PyDict_Next"
    ∷ same "PyDict_Keys"
    ∷ same "PyDict_Values"
    ∷ same "PyDict_Size"
    ∷ same "PyDict_Copy"
    ∷ same "PyFloat_AsDouble"
    ∷ same "PyFloat_FromDouble"
    ∷ same "PyFunction_Type"
    ∷ same "PyMethod_Type"
    ∷ same "PyModule_Type"
    ∷ same "PyType_Type"
    ∷ same "PyProperty_Type"
    ∷ same "PyCapsule_IsValid"
    ∷ same "PyComplex_FromDoubles"
    ∷ same "PyComplex_RealAsDouble"
    ∷ same "PyComplex_ImagAsDouble"
    ∷ same "PyObject_IsInstance"
    ∷ same "PyObject_RichCompareBool"
    ∷ same "PyObject_Call"
    ∷ same "PyObject_CallFunctionObjArgs"
    ∷ same "PyType_IsSubtype"
    ∷ same "PyType_GetFlags"
    ∷ same "PyMapping_Items"
    ∷ same "PySys_WriteStderr"
    ∷ same "PySys_GetObject"
    ∷ same "PyEval_SetProfile"
    ∷ same "PyGILState_GetThisThreadState"
    ∷ same "PyGILState_Ensure"
    ∷ same "PyGILState_Release"
    ∷ same "PyThreadState_Next"
    ∷ same "PyObject_CallMethod"
    ∷ same "PySequence_GetItem"
    ∷ same "PyObject_IsTrue"
    ∷ same "PyCapsule_Import"
    ∷ same "PyUnicode_AsUTF8"
    ∷ []

-- The names under which PyUnicode_AsEncodedString may go.
abbrev pub encoder_names : List String
encoder_names =
    "PyUnicode_AsEncodedString" ∷ "PyUnicodeUCS2_AsEncodedString" ∷ "PyUnicodeUCS4_AsEncodedString"
    ∷ []

abbrev pub python3_symbols : List Load
python3_symbols =
    same "PyException_SetTraceback"
    ∷ same "Py_GetProgramFullPath"
    ∷ ("PyModule_Create2", "PyModule_Create")
    ∷ same "PyImport_AppendInittab"
    ∷ ("Py_SetProgramName", "Py_SetProgramName_v3")
    ∷ ("Py_SetPythonHome", "Py_SetPythonHome_v3")
    ∷ ("PySys_SetArgv", "PySys_SetArgv_v3")
    ∷ same "PyUnicode_EncodeLocale"
    ∷ same "PyBytes_AsStringAndSize"
    ∷ same "PyBytes_FromStringAndSize"
    ∷ same "PyUnicode_FromString"
    ∷ ("PyLong_AsLong", "PyInt_AsLong")
    ∷ ("PyLong_FromLong", "PyInt_FromLong")
    ∷ same "Py_CompileStringExFlags"
    ∷ []

abbrev pub python2_symbols : Bool → List Load
python2_symbols is64bit =
    (if is64bit then ("Py_InitModule4_64", "Py_InitModule4") else same "Py_InitModule4")
    ∷ ("Py_GetProgramFullPath", "Py_GetProgramFullPath_v2")
    ∷ same "PyString_AsStringAndSize"
    ∷ same "PyString_FromStringAndSize"
    ∷ same "PyString_FromString"
    ∷ same "Py_SetProgramName"
    ∷ same "Py_SetPythonHome"
    ∷ same "PySys_SetArgv"
    ∷ same "PyInt_AsLong"
    ∷ same "PyInt_FromLong"
    ∷ same "PyCObject_AsVoidPtr"
    ∷ same "Py_CompileString"
    ∷ []

-- For both versions, at the end.
abbrev pub last_symbols : List Load
last_symbols =
    same "PyCapsule_New"
    ∷ same "PyCapsule_GetPointer"
    ∷ same "PyCapsule_SetContext"
    ∷ same "PyCapsule_GetContext"
    ∷ same "Py_BuildValue"
    ∷ []
